-- ===== src/WebdavFs/Writer/Put.antt =====
-- A PUT from the first byte to the closed file, against what readers then find.
use mathlib.Core.List.{append_assoc}
use tgwebdav.Base.{
  ℕ, zero, suc, ◌<◌, ◌≡◌, refl, ap, sym, ◌∙◌, if_false, Bool, true, false, ◌++◌, arith, leb,
  if◌then◌else◌, length, take, drop, length-append,
}
use tgwebdav.Model.{Bytes}
use tgwebdav.Repository.WalChunks.{assemble}
use tgwebdav.Store.{Result, ok, err, closed, Db, World, Exec, pure, ◌>>=◌, attempt}
use tgwebdav.Store.Rules.{bind_of_ok}
use tgwebdav.WebdavFs.Env.{Env}
use tgwebdav.WebdavFs.Writer.{
  Writer, flush_chunk, after_flush, flush_full, count_of, take_in, write,
}
use tgwebdav.WebdavFs.Writer.Layout.{IsBuffered, chunks_of, flush_full-Flushed}

module _ (env : Env) where
  flush_full_total :
      (fuel : ℕ) (w : Writer) (v : World)
      → (x : Writer × Result (Unit {0})) × ((flush_full env fuel w v).0 ≡ ok x)
  unfolding flush_full attempt
  flush_full_total zero w v = ((w, ok tt), refl)
  flush_full_total (suc fuel) w v =
      round (leb env.chunk_size (length w.buf)) (flush_full_total fuel)
    where
      after :
          ((u : Writer) (v : World)
            → (x : Writer × Result (Unit {0})) × ((flush_full env fuel u v).0 ≡ ok x))
          → (r : Result Writer) (v : World)
          → (x : Writer × Result (Unit {0})) × ((after_flush env (flush_full env fuel) w r v).0
              ≡ ok x)
      after again (ok u) v = again (record u { buf = drop env.chunk_size u.buf }) v
      after again (err e) v = ((w, err e), refl)

      round :
          (long : Bool)
          → ((u : Writer) (v : World)
              → (x : Writer × Result (Unit {0})) × ((flush_full env fuel u v).0 ≡ ok x))
          → (x : Writer × Result (Unit {0})) × (((if long
                  then attempt
                      (flush_chunk env w (take env.chunk_size w.buf))
                      (after_flush env (flush_full env fuel) w)
                  else pure (w, ok tt))
                v).0
              ≡ ok x)
      round true again =
          let r = flush_chunk env w (take env.chunk_size w.buf) v in after again r.0 r.1
      round false again = ((w, ok tt), refl)

  -- A good answer counts all bytes, and less than a chunk is left.
  abbrev pub Reported : Bytes → Writer → Result ℕ → Type 0
  Reported p w (ok n) = (n ≡ length p) × (length w.buf < env.chunk_size)
  Reported p w (err e) = Unit

  -- What a call of `Write` answers, and how it leaves the writer and the tables.
  abbrev pub Written : Writer → Bytes → Writer × Result ℕ → Db → Type 0
  Written w p x d =
      IsBuffered env x.0 d
      × (x.0.node ≡ w.node)
      × (x.0.hasher ≡ w.hasher ++ p)
      × (x.0.is_closed ≡ w.is_closed)
      × Reported p x.0 x.1

  take_in-IsBuffered :
      (w : Writer) (p : Bytes) (d : Db) → IsBuffered env w d → IsBuffered env (take_in w p) d
  take_in-IsBuffered w p d b = record {
    full = b.full;
    counted = b.counted;
    spelled =
        sym (append_assoc (assemble (chunks_of env w d)) w.buf p) ∙ ap (λ r. r ++ p) b.spelled;
    sized = omega (arith, b.sized, length-append w.hasher p);
  }

  -- From a writer in order, `Write` always returns, whatever calls fail: the writer stays in order and
  -- has taken the bytes in; and if it reports no error it reports all of them, and leaves less than a
  -- chunk in the buffer.
  pub write-IsBuffered :
      0 < env.chunk_size
      → (w : Writer) (p : Bytes) (v : World) → w.is_closed ≡ false
      → IsBuffered env w v.db
      → (x : Writer × Result ℕ) × ((write env w p v).0 ≡ ok x)
        × Written w p x (write env w p v).1.db
  unfolding write
  write-IsBuffered positive w p v opened b =
      let fuel = length (w.buf ++ p) in
      let loop : Exec (Writer × Result (Unit {0})) = flush_full env fuel (take_in w p) in
      let total = flush_full_total fuel (take_in w p) v in
      let x = total.0 in
      let done =
        (flush_full-Flushed env positive fuel (take_in w p) (omega arith) v.db
            (take_in-IsBuffered w p v.db b)).at
          v x refl total.1 in
      let answer : Writer × Result (Unit {0}) → Exec (Writer × Result ℕ) =
        λ r. pure (r.0, count_of (length p) r.1) in
      let went : write env w p v ≡ answer x (loop v).1 =
        ap (λ (m : Exec (Writer × Result ℕ)). m v)
          (if_false w.is_closed (pure (w, err closed)) (loop >>= answer) opened)
        ∙ bind_of_ok loop answer v x total.1 in
      rw went (
        (x.0, count_of (length p) x.1),
        refl,
        (done.0, done.1.0, done.1.2, done.1.4, reported x.0 x.1 done.2),
      )
    where
      reported :
          (w' : Writer) (r : Result (Unit {0}))
          → (r ≡ ok tt → length w'.buf < env.chunk_size)
          → Reported p w' (count_of (length p) r)
      reported w' (ok _) h = (refl, h refl)
      reported w' (err x) h = tt
