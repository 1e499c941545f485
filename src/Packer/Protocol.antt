-- ===== src/Packer/Protocol.antt =====
-- One file between the builder and the upload workers: the critical sections in any order.
--
-- A step is what one of them does to the track under the mutex of packState, with the decision that it
-- takes there. `outstanding` are the jobs of the track that no worker has dealt with, `lost` those whose
-- upload failed; `finalize_calls` counts the calls of finalize, `release_calls` those of ReleaseLease, and
-- `finalized` and `released` those of them that take effect: either may fail, and the code then goes on
-- and leaves the file with its lease. A step that may call one of them says whether it `works`.
use tgwebdav.Base.{
  ℕ, suc, ◌+◌, ◌≤◌, ◌<◌, ◌≡◌, refl, Bool, true, false, not, ◌&&◌, [], ◌∷◌, ◌++◌, arith,
}
use tgwebdav.Model.{Extent, Node}
use tgwebdav.Packer.{Track, land, is_ready_track}

pub record Progress : Type 0 where
  pub track : Track
  -- whether the builder is still at the file
  pub building : Bool
  pub outstanding : ℕ
  pub lost : ℕ
  pub finalize_calls : ℕ
  pub finalized : ℕ
  pub release_calls : ℕ
  pub released : ℕ

abbrev pub one_if : Bool → ℕ
one_if true = 1
one_if false = 0

-- failTrack: the lease is released the first time.
abbrev pub fail : Bool → Progress → Progress
fail works s = record s {
  track = record s.track { failed = true };
  release_calls = s.release_calls + one_if (not s.track.failed);
  released = s.released + one_if (not s.track.failed && works);
}

-- `if t.planned && t.remaining == 0 && !t.failed`, and finalize
abbrev pub check_ready : Bool → Progress → Progress
check_ready works s = record s {
  finalize_calls = s.finalize_calls + one_if (is_ready_track s.track);
  finalized = s.finalized + one_if (is_ready_track s.track && works);
}

-- splitLarge and seal: one more job
abbrev pub emit_piece : Progress → Extent → Progress
emit_piece s e = record s {
  track = record s.track { extents = s.track.extents ++ e ∷ []; remaining = suc s.track.remaining };
  outstanding = suc s.outstanding;
}

-- splitLarge and seal, at the end
abbrev pub plan : Bool → Progress → Progress
plan works s =
    check_ready works (record s { track = record s.track { planned = true }; building = false })

-- splitLarge, when a call fails
abbrev pub give_up : Bool → Progress → Progress
give_up works s = fail works (record s { building = false })

-- packSmall and seal, when a call fails before the file is in a job
abbrev pub drop_file : Bool → Progress → Progress
drop_file works s = record s {
  building = false;
  release_calls = suc s.release_calls;
  released = s.released + one_if works;
}

-- uploadWorker, when a blob is stored; `n` jobs are left
abbrev pub land_job : Bool → ℕ → Progress → Progress
land_job works n s = check_ready works (record s { track = land s.track; outstanding = n })

-- failJob
abbrev pub fail_job : Bool → ℕ → Progress → Progress
fail_job works n s = fail works (record s { outstanding = n; lost = suc s.lost })

pub data Step : Progress → Progress → Type 0 where
  emitted : (s : Progress) (e : Extent) → s.building ≡ true → Step s (emit_piece s e)
  planned_all : (s : Progress) (works : Bool) → s.building ≡ true → Step s (plan works s)
  given_up : (s : Progress) (works : Bool) → s.building ≡ true → Step s (give_up works s)
  dropped :
      (s : Progress) (works : Bool)
      → s.building ≡ true
      → s.track.remaining ≡ 0
      → s.outstanding ≡ 0
      → Step s (drop_file works s)
  landed :
      (s : Progress) (works : Bool) (n : ℕ) → s.outstanding ≡ suc n → Step s (land_job works n s)
  failed_job :
      (s : Progress) (works : Bool) (n : ℕ) → s.outstanding ≡ suc n → Step s (fail_job works n s)

pub data Reaches : Progress → Progress → Type 0 where
  here : (s : Progress) → Reaches s s
  then_step : (s u v : Progress) → Reaches s u → Step u v → Reaches s v

abbrev pub start : Node → Progress
start node = record {
  track = record { node = node; remaining = 0; planned = false; failed = false; extents = [] };
  building = true;
  outstanding = 0;
  lost = 0;
  finalize_calls = 0;
  finalized = 0;
  release_calls = 0;
  released = 0;
}

-- What holds between the counts at any time.
pub record IsFair (s : Progress) : Type 0 where
  pub waiting : s.track.remaining ≡ s.outstanding + s.lost
  pub blamed : s.track.failed ≡ false → s.lost ≡ 0
  pub apart : s.building ≡ true → s.track.planned ≡ false
  pub cause : s.building ≡ true → s.track.failed ≡ true → 0 < s.lost
  pub idle :
      s.building ≡ false → s.track.planned ≡ false → s.track.failed ≡ false → s.outstanding ≡ 0
  pub early : s.building ≡ true → s.release_calls ≡ one_if s.track.failed
  pub over :
      s.building ≡ false → s.release_calls + one_if (not s.track.failed && s.track.planned) ≡ 1
  pub final : s.finalize_calls ≡ one_if (is_ready_track s.track)
  pub effective : (s.finalized ≤ s.finalize_calls) × (s.released ≤ s.release_calls)

start-IsFair : (node : Node) → IsFair (start node)
unfolding is_ready_track
start-IsFair node = record {
  waiting = refl;
  blamed = λ _. refl;
  apart = λ _. refl;
  cause = λ _ e. cc;
  idle = λ e _ _. refl;
  early = λ _. refl;
  over = λ e. cc e;
  final = refl;
  effective = (omega arith, omega arith);
}

Step-IsFair : (s u : Progress) → Step s u → IsFair s → IsFair u
unfolding is_ready_track land
Step-IsFair s _ (Step.emitted _ e b) h = record {
  waiting = ground arith;
  blamed = ground arith;
  apart = ground arith;
  cause = ground arith;
  idle = ground arith;
  early = ground arith;
  over = ground arith;
  final = ground arith;
  effective = (ground arith, ground arith);
}
Step-IsFair s _ (Step.planned_all _ works b) h = record {
  waiting = ground arith;
  blamed = ground arith;
  apart = ground arith;
  cause = ground arith;
  idle = ground arith;
  early = ground arith;
  over = ground arith;
  final = ground arith;
  effective = (ground arith, ground arith);
}
Step-IsFair s _ (Step.given_up _ works b) h = record {
  waiting = ground arith;
  blamed = ground arith;
  apart = ground arith;
  cause = ground arith;
  idle = ground arith;
  early = ground arith;
  over = ground arith;
  final = ground arith;
  effective = (ground arith, ground arith);
}
Step-IsFair s _ (Step.dropped _ works b z o) h = record {
  waiting = ground arith;
  blamed = ground arith;
  apart = ground arith;
  cause = ground arith;
  idle = ground arith;
  early = ground arith;
  over = ground arith;
  final = ground arith;
  effective = (ground arith, ground arith);
}
Step-IsFair s _ (Step.landed _ works n o) h = record {
  waiting = ground arith;
  blamed = ground arith;
  apart = ground arith;
  cause = ground arith;
  idle = ground arith;
  early = ground arith;
  over = ground arith;
  final = ground arith;
  effective = (ground arith, ground arith);
}
Step-IsFair s _ (Step.failed_job _ works n o) h = record {
  waiting = ground arith;
  blamed = ground arith;
  apart = ground arith;
  cause = ground arith;
  idle = ground arith;
  early = ground arith;
  over = ground arith;
  final = ground arith;
  effective = (ground arith, ground arith);
}

Reaches-IsFair : (s u : Progress) → Reaches s u → IsFair s → IsFair u
Reaches-IsFair s u (Reaches.here _) h = h
Reaches-IsFair s u (Reaches.then_step _ v _ r k) h = Step-IsFair v u k (Reaches-IsFair s v r h)

-- However the builder and the workers interleave, and whichever uploads and calls fail, at any
-- time finalize or ReleaseLease was called for a file at most once, and never both; so the file
-- was finalized or its lease was released at most once, and never both.
pub Reaches-at_most_once :
    (node : Node) (s : Progress)
    → Reaches (start node) s
    → (s.finalize_calls + s.release_calls ≤ 1) × (s.finalized + s.released ≤ 1)
unfolding is_ready_track
Reaches-at_most_once node s r =
    let h = Reaches-IsFair (start node) s r (start-IsFair node) in
    let calls : s.finalize_calls + s.release_calls ≤ 1 =
      ground (arith, h.waiting, h.blamed, h.apart, h.cause, h.idle, h.early, h.over, h.final) in
    (calls, omega (arith, calls, h.effective.0, h.effective.1))

-- Once the builder is done with a file and the workers have dealt with all its jobs, in whatever
-- order and with whatever failures, one call was made for it, of finalize or of ReleaseLease, and
-- no second; and neither took effect more often than it was called, since a call may fail and is
-- not made again.
pub Reaches-exactly_once :
    (node : Node) (s : Progress)
    → Reaches (start node) s
    → s.building ≡ false
    → s.outstanding ≡ 0
    → (s.finalize_calls + s.release_calls ≡ 1)
      × (s.finalized ≤ s.finalize_calls)
      × (s.released ≤ s.release_calls)
unfolding is_ready_track
Reaches-exactly_once node s r b o =
    let h = Reaches-IsFair (start node) s r (start-IsFair node) in
    (
      ground (arith, h.waiting, h.blamed, h.apart, h.cause, h.idle, h.early, h.over, h.final),
      h.effective.0,
      h.effective.1,
    )

-- A file is finalized only when every one of its blobs is stored, and no call has failed it.
pub Reaches-complete :
    (node : Node) (s : Progress)
    → Reaches (start node) s
    → s.finalize_calls ≡ 1
    → (s.outstanding ≡ 0) × (s.lost ≡ 0) × (s.track.planned ≡ true) × (s.track.failed ≡ false)
unfolding is_ready_track
Reaches-complete node s r f =
    let h = Reaches-IsFair (start node) s r (start-IsFair node) in
    (
      ground (arith, h.waiting, h.blamed, h.final),
      ground (arith, h.waiting, h.blamed, h.final),
      ground (arith, h.waiting, h.blamed, h.final),
      ground (arith, h.waiting, h.blamed, h.final),
    )
