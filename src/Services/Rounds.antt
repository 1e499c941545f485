-- ===== src/Services/Rounds.antt =====
-- That the choices of PickForUpload (internal/service/bot.go) go round all the bots.
use native.Mathlib.Nat.{mod-lt, mod-eq_of_lt, mod-add-mod, add-mod_left}
use tgwebdav.Base.{
  ℕ, zero, suc, ◌≡◌, ◌≤◌, ◌<◌, ◌+◌, ◌-◌, ◌%◌, refl, sym, ap, ◌∙◌, false, leb, leb→le, lt→ltb,
  Option, none, some, List, [], ◌∷◌, length, get_elem?, Has, Bool-cases, inl, inr, arith,
}
use tgwebdav.Model.{Bot}
use tgwebdav.Repository.Bots.{Cipher}
use tgwebdav.Services.Bots.{next_bot_turn, take_turn}
use tgwebdav.Services.{int_limit, word_limit, pick_index, element_at, found_or_panic}
use tgwebdav.Store.{ok, World, ◌>>=◌}

-- Within `n` steps a counter comes by every remainder.
comes_by : (n c j : ℕ) → j < n → (i : ℕ) × (i < n) × ((c + i) % n ≡ j)
comes_by n c j below = elim (Bool-cases (leb (c % n) j)) [
  | inl t ↦
      let le : c % n ≤ j = leb→le (c % n) j t in
      (
        j - c % n,
        omega arith,
        sym (mod-add-mod c n (j - c % n))
            ∙ ap (λ x. x % n) (restore (c % n) j le)
            ∙ mod-eq_of_lt below,
      )
  | inr f ↦
      let lt : c % n < n = mod-lt c (positive n j below) in
      let gt : j < c % n = above (c % n) j f in
      (
        n + j - c % n,
        less n (c % n) j lt gt,
        sym (mod-add-mod c n (n + j - c % n))
            ∙ ap (λ x. x % n) (restore (c % n) (n + j) (within n (c % n) j lt))
            ∙ add-mod_left n j
            ∙ mod-eq_of_lt below,
      )
]
  where
    restore : (a b : ℕ) → a ≤ b → a + (b - a) ≡ b
    restore a b h = omega arith

    positive : (n j : ℕ) → j < n → 0 < n
    positive n j h = omega arith

    above : (a j : ℕ) → leb a j ≡ false → j < a
    above a j h = ground arith

    less : (n a j : ℕ) → a < n → j < a → n + j - a < n
    less n a j h k = omega arith

    within : (n a j : ℕ) → a < n → a ≤ n + j
    within n a j h = omega arith

module _ (key : Option Cipher) where
  -- the world after that many choices among the same bots
  abbrev pub after_turns : ℕ → List Bot → World → World
  after_turns zero bots w = w
  after_turns (suc i) bots w = after_turns i bots (take_turn key bots w).1

  -- A choice moves the counter on by one.
  turn-moves :
      (b : Bot) (bs : List Bot) (w : World)
      → (take_turn key (b ∷ bs) w).1.bot_rr ≡ suc w.bot_rr % word_limit
  unfolding take_turn next_bot_turn ◌>>=◌
  turn-moves b bs w = go (pick_index w.bot_rr (length (b ∷ bs)))
    where
      moved : World
      moved = record w { bot_rr = suc w.bot_rr % word_limit }

      go : (o : Option ℕ) → (element_at (b ∷ bs) o moved).1.bot_rr ≡ suc w.bot_rr % word_limit
      go none = refl
      go (some i) = found (get_elem? (b ∷ bs) i)
        where
          found : (o : Option Bot) → (found_or_panic o moved).1.bot_rr ≡ suc w.bot_rr % word_limit
          found none = refl
          found (some x) = refl

  after_turns-rr :
      (i : ℕ) (b : Bot) (bs : List Bot) (w : World)
      → w.bot_rr + i < word_limit
      → (after_turns i (b ∷ bs) w).bot_rr ≡ w.bot_rr + i
  after_turns-rr zero b bs w h = omega arith
  after_turns-rr (suc i) b bs w h =
      let moved : (take_turn key (b ∷ bs) w).1.bot_rr ≡ suc w.bot_rr =
        turn-moves b bs w ∙ mod-eq_of_lt (omega arith) in
      after_turns-rr i b bs (take_turn key (b ∷ bs) w).1 (omega arith) ∙ omega arith

  turn-picks :
      (b : Bot) (bs : List Bot) (w : World) (j : ℕ) (x : Bot)
      → w.bot_rr < int_limit
      → w.bot_rr % length (b ∷ bs) ≡ j
      → get_elem? (b ∷ bs) j ≡ some x
      → (take_turn key (b ∷ bs) w).0 ≡ ok x
  unfolding take_turn next_bot_turn ◌>>=◌ pick_index
  turn-picks b bs w j x small at there = rw (lt→ltb w.bot_rr int_limit small, at, there) refl

  place :
      {A : Type 0} (x : A) (xs : List A)
      → Has x xs
      → (j : ℕ) × (j < length xs) × (get_elem? xs j ≡ some x)
  place x [] h = elim h [ ]
  place x (y ∷ ys) (inl e) = (0, omega arith, rw e refl)
  place x (y ∷ ys) (inr h) = let (j, below, at) = place x ys h in (suc j, omega arith, at)

  -- While the eligible bots stay the same, each of them is the choice of one of the next so many
  -- rounds of PickForUpload as there are bots, if the counter stays below 2 ^ 63 on the way.
  pub take_turn-after_turns :
      (bots : List Bot) (x : Bot) (w : World)
      → Has x bots
      → w.bot_rr + length bots ≤ int_limit
      → (i : ℕ) × (i < length bots) × ((take_turn key bots (after_turns i bots w)).0 ≡ ok x)
  take_turn-after_turns [] x w there room = elim there [ ]
  take_turn-after_turns (b ∷ bs) x w there room =
      let (j, below, at) = place x (b ∷ bs) there in
      let (i, soon, comes) = comes_by (length (b ∷ bs)) w.bot_rr j below in
      let rr : (after_turns i (b ∷ bs) w).bot_rr ≡ w.bot_rr + i =
        after_turns-rr i b bs w (omega arith) in
      (
        i,
        soon,
        turn-picks b bs (after_turns i (b ∷ bs) w) j x (omega arith)
            (ap (λ c. c % length (b ∷ bs)) rr ∙ comes) at,
      )
