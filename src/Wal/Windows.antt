-- ===== src/Wal/Windows.antt =====
-- WALRepository.ReadRange against the content that the chunks spell out.
use native.Mathlib.Nat.{div-add-mod', mod-lt}
use mathlib.Core.List.{append-nil}
use tgwebdav.Base.{
  ℕ, zero, suc, ◌+◌, ◌-◌, ◌*◌, ◌/◌, ◌≤◌, ◌<◌, ◌≡◌, refl, ap, sym, Bool, true, false, ◌&&◌, List, [],
  ◌∷◌, ◌++◌, arith, ltb, leb, ◌==◌, Bool-cases, inl, inr, length, take, drop, keep, All,
  length-drop, take_of_length-le, drop_of_length-le, take-take, drop-take, drop-drop, keep-keep,
  leb→le, ltb→lt, ◌∙◌, take-append_add, drop-append_add,
}
use tgwebdav.Model.{Uuid, Bytes, WalChunk}
use tgwebdav.Repository.Rows.{keep-order_by}
use tgwebdav.Repository.Order.{order_by, Ascending, order_by-Ascending, keep-Ascending}
use tgwebdav.Repository.WalChunks.{chunks_in, assemble, window, range_of}

module _ (chunk_size : ℕ) where
  -- A chunk is full unless it is the last, and no chunk is empty.
  abbrev pub IsFull : WalChunk → List WalChunk → Type 0
  IsFull c [] = (0 < length c.bytes) × (length c.bytes ≤ chunk_size)
  IsFull c (_ ∷ _) = length c.bytes ≡ chunk_size

  -- The domain invariant of model.WALChunkSize: numbered without a gap from `seq`, all full but the
  -- last.
  abbrev pub IsChunked : ℕ → List WalChunk → Type 0
  IsChunked seq [] = Unit
  IsChunked seq (c ∷ cs) = (c.seq ≡ seq) × IsFull c cs × IsChunked (suc seq) cs

  -- The chunks of one node, in table order.
  abbrev pub rows_of : Uuid → List WalChunk → List WalChunk
  rows_of node_id rows = keep (λ (c : WalChunk). c.node_id == node_id) rows

  abbrev key : WalChunk → ℕ
  key c = c.seq

  above : (n seq : ℕ) (cs : List WalChunk) → n < seq → IsChunked seq cs → All (λ c. n < key c) cs
  above n seq [] h k = tt
  above n seq (c ∷ cs) h k = (omega (arith, k.0), above n (suc seq) cs (omega arith) k.2)

  IsChunked-Ascending : (seq : ℕ) (cs : List WalChunk) → IsChunked seq cs → Ascending key cs
  IsChunked-Ascending seq [] h = tt
  IsChunked-Ascending seq (c ∷ cs) h =
      (above c.seq (suc seq) cs (omega (arith, h.0)) h.2, IsChunked-Ascending (suc seq) cs h.2)

  abbrev between : ℕ → ℕ → WalChunk → Bool
  between first last c = leb first c.seq && leb c.seq last

  chunks_in-between :
      (node_id first last : ℕ) (rows : List WalChunk)
      → IsChunked 0 (rows_of node_id rows)
      → chunks_in node_id first last rows ≡ keep (between first last) (rows_of node_id rows)
  unfolding chunks_in
  chunks_in-between node_id first last rows h =
      rw (← keep-keep (between first last) (λ (c : WalChunk). c.node_id == node_id) rows) (
        order_by-Ascending key _
          (keep-Ascending key (between first last) _ (IsChunked-Ascending 0 _ h)))

  module _ (positive : 0 < chunk_size) (first last : ℕ) (ordered : first ≤ last) where
    between_seq :
        (seq : ℕ) (c : WalChunk)
        → c.seq ≡ seq
        → between first last c ≡ (leb first seq && leb seq last)
    between_seq seq c e = rw e

    first_below : (seq : ℕ) → first ≤ seq → leb first seq ≡ true
    first_below seq h = ground arith

    below : (seq : ℕ) → ltb seq first ≡ true → leb first seq ≡ false
    below seq h = ground arith

    not_ltb : (a b : ℕ) → ltb a b ≡ false → b ≤ a
    not_ltb a b h = ground arith

    not_leb : (a b : ℕ) → leb a b ≡ false → b < a
    not_leb a b h = ground arith

    times_suc : (a b : ℕ) → a ≡ suc b → a * chunk_size ≡ chunk_size + b * chunk_size
    times_suc a b e = rw e (omega arith)

    outside : (seq : ℕ) → last < seq → (bs : Bytes) → take ((last + 1 - seq) * chunk_size) bs ≡ []
    outside seq h bs =
        let e : last + 1 - seq ≡ 0 = omega arith in
        let z : 0 * chunk_size ≡ 0 = omega arith in rw (e, z)

    inside :
        (seq : ℕ) (c : WalChunk) (cs : List WalChunk)
        → IsFull c cs
        → seq ≤ last
        → assemble (keep (between first last) cs)
          ≡ take ((last + 1 - suc seq) * chunk_size) (assemble cs)
        → c.bytes ++ assemble (keep (between first last) cs)
          ≡ take ((last + 1 - seq) * chunk_size) (c.bytes ++ assemble cs)
    unfolding assemble
    inside seq c [] full h ih =
        let k = times_suc (last + 1 - seq) (last + 1 - suc seq) (omega arith) in
        rw append-nil
          (sym (take_of_length-le ((last + 1 - seq) * chunk_size) c.bytes (omega arith)))
    inside seq c (d ∷ ds) full h ih =
        let k = times_suc (last + 1 - seq) (last + 1 - suc seq) (omega arith) in
        rw ih (sym (take-append_add c.bytes (assemble (d ∷ ds)) _ _ (omega arith)))

    -- From a chunk of the window on, what is selected is a prefix of what follows.
    assemble_from :
        (seq : ℕ) (cs : List WalChunk)
        → first ≤ seq
        → IsChunked seq cs
        → assemble (keep (between first last) cs)
          ≡ take ((last + 1 - seq) * chunk_size) (assemble cs)
    unfolding assemble
    assemble_from seq [] h k = sym (take_of_length-le _ [] (omega arith))
    assemble_from seq (c ∷ cs) h k = elim (Bool-cases (leb seq last)) [
      | inl t ↦
          rw (between_seq seq c k.0, first_below seq h, t)
            (inside seq c cs k.1 (leb→le seq last t) (assemble_from (suc seq) cs (omega arith) k.2))
      | inr f ↦
          rw (between_seq seq c k.0, first_below seq h, f)
            (assemble_from (suc seq) cs (omega arith) k.2
              ∙ outside (suc seq) (omega (arith, not_leb seq last f)) (assemble cs)
              ∙ sym (outside seq (not_leb seq last f) (assemble (c ∷ cs))))
    ]

    skipped :
        (seq : ℕ) (c : WalChunk) (cs : List WalChunk)
        → IsFull c cs
        → seq < first
        → drop ((first - seq) * chunk_size) (assemble (c ∷ cs))
          ≡ drop ((first - suc seq) * chunk_size) (assemble cs)
    unfolding assemble
    skipped seq c [] full h =
        let e = times_suc (first - seq) (first - suc seq) (omega arith) in
        rw append-nil
          (drop_of_length-le _ c.bytes (omega arith) ∙ sym (drop_of_length-le _ [] (omega arith)))
    skipped seq c (d ∷ ds) full h =
        let e = times_suc (first - seq) (first - suc seq) (omega arith) in
        drop-append_add c.bytes (assemble (d ∷ ds)) _ _ (omega arith)

    -- The selected chunks are the bytes from the window's first chunk to its last.
    assemble-between :
        (seq : ℕ) (cs : List WalChunk)
        → seq ≤ first
        → IsChunked seq cs
        → assemble (keep (between first last) cs)
          ≡ take ((last + 1 - first) * chunk_size) (drop ((first - seq) * chunk_size) (assemble cs))
    unfolding assemble
    assemble-between seq [] h k = sym (
        ap (take ((last + 1 - first) * chunk_size)) (drop_of_length-le _ [] (omega arith))
        ∙ take_of_length-le _ [] (omega arith))
    assemble-between seq (c ∷ cs) h k = elim (Bool-cases (ltb seq first)) [
      | inl t ↦
          rw (between_seq seq c k.0, below seq t)
            (assemble-between (suc seq) cs (ltb→lt seq first t) k.2
              ∙ ap (take ((last + 1 - first) * chunk_size))
                  (sym (skipped seq c cs k.1 (ltb→lt seq first t))))
      | inr f ↦
          let e : first ≡ seq = omega (arith, not_ltb seq first f) in
          let d : first - seq ≡ 0 = omega arith in
          let z : (first - seq) * chunk_size ≡ 0 = rw d (omega arith) in
          rw z (
            assemble_from seq (c ∷ cs) (omega arith) k
            ∙ ap (λ i. take ((last + 1 - i) * chunk_size) (assemble (c ∷ cs))) (sym e))
    ]

take_zero : (n : ℕ) (w : Bytes) → n ≡ 0 → take n w ≡ []
take_zero n w e = rw e

-- What `ReadRange` cuts from the bytes that it assembled.
window_lem : (w : Bytes) (from end : ℕ) → window w from end ≡ take (end - from) (drop from w)
unfolding window
window_lem w from end = elim (Bool-cases (ltb (length w) end)) [
  | inl t ↦
      let short : length w < end = ltb→lt _ _ t in
      let all = take_of_length-le (end - from) (drop from w) (omega (arith, length-drop from w)) in
      let exact =
        take_of_length-le (length w - from) (drop from w) (omega (arith, length-drop from w)) in
      rw (t, all)
        (elim (Bool-cases (leb (length w) from)) [
          | inl u ↦ rw u (sym (drop_of_length-le from w (leb→le _ _ u)))
          | inr v ↦ rw v exact
        ])
  | inr f ↦ rw f (elim (Bool-cases (leb end from)) [
    | inl u ↦ rw u (sym (take_zero (end - from) (drop from w) (omega (arith, leb→le _ _ u))))
    | inr v ↦ rw v refl
  ])
]

-- A window of a longer prefix is the window itself.
window-take :
    (bs : Bytes) (k from end : ℕ)
    → end ≤ k
    → window (take k bs) from end ≡ take (end - from) (drop from bs)
window-take bs k from end h =
    window_lem (take k bs) from end
    ∙ ap (take (end - from)) (drop-take from k bs)
    ∙ take-take (end - from) (k - from) (drop from bs) (omega arith)

times_split : (c a b d : ℕ) → b ≡ a + d → d * c + a * c ≡ b * c
times_split c a b d e = rw e (omega arith)

suc_test : (n : ℕ) → (suc n == 0) ≡ false
suc_test n = ground arith

sub-zero : (n : ℕ) → n - 0 ≡ n
sub-zero n = omega arith

window_of_chunks :
    (c : ℕ)
    → 0 < c
    → (node_id offset len first last : ℕ) (rows : List WalChunk) → first ≤ last
    → first * c ≤ offset
    → offset + len ≤ (last + 1) * c
    → IsChunked c 0 (rows_of c node_id rows)
    → window
        (assemble (chunks_in node_id first last rows))
        (offset - first * c)
        (offset + len - first * c)
      ≡ take len (drop offset (assemble (rows_of c node_id rows)))
window_of_chunks c positive node_id offset len first last rows o lo hi h =
    let content = assemble (rows_of c node_id rows) in
    let base : (first - 0) * c ≡ first * c = ap (λ k. k * c) (sub-zero first) in
    let span = times_split c first (last + 1) (last + 1 - first) (omega arith) in
    let size : offset + len - first * c - (offset - first * c) ≡ len = omega arith in
    let start : first * c + (offset - first * c) ≡ offset = omega arith in
    rw
      (
        chunks_in-between c node_id first last rows h,
        assemble-between c positive first last o 0 (rows_of c node_id rows) (omega arith) h,
        base,
      )
      (window-take (drop (first * c) content) _ _ _ (omega arith)
        ∙ ap (λ k. take k (drop (offset - first * c) (drop (first * c) content))) size
        ∙ ap (take len) (drop-drop (offset - first * c) (first * c) content)
        ∙ ap (λ k. take len (drop k content)) start)

div_below : (n c : ℕ) → 0 < c → (n / c * c ≤ n) × (n < (n / c + 1) * c)
div_below n c h =
    let whole = div-add-mod' n c in let part = mod-lt n h in (omega arith, omega arith)

div_mono : (m n c : ℕ) → 0 < c → m ≤ n → m / c ≤ n / c
div_mono m n c h k = elim (Bool-cases (leb (m / c) (n / c))) [
  | inl t ↦ leb→le _ _ t
  | inr f ↦
      let over : n / c + 1 ≤ m / c = ground (arith, f) in
      let scaled : (n / c + 1) * c ≤ m / c * c = grind arith in
      absurd (omega (arith, div_below m c h, div_below n c h))
]

-- ReadRange where the rows stand in order in the table.
pub range_of_in_order :
    (chunk_size : ℕ)
    → 0 < chunk_size
    → (node_id offset len : ℕ) (rows : List WalChunk)
    → IsChunked chunk_size 0 (rows_of chunk_size node_id rows)
    → range_of chunk_size node_id offset len rows
      ≡ take len (drop offset (assemble (rows_of chunk_size node_id rows)))
unfolding range_of
range_of_in_order c positive node_id offset zero rows h = refl
range_of_in_order c positive node_id offset (suc n) rows h =
    let ends = div_below (offset + suc n - 1) c positive in
    rw (suc_test n) (
      window_of_chunks c positive node_id offset (suc n) (offset / c) ((offset + suc n - 1) / c)
        rows (div_mono offset (offset + suc n - 1) c positive (omega arith))
        (div_below offset c positive).0 (omega arith) h)

-- The chunks of one node, by number.
abbrev pub ordered_rows : Uuid → List WalChunk → List WalChunk
ordered_rows node_id rows =
    order_by (λ (c : WalChunk). c.seq) (keep (λ (c : WalChunk). c.node_id == node_id) rows)

module _ (chunk_size : ℕ) (node_id : Uuid) (rows : List WalChunk) where
  abbrev of_it : WalChunk → Bool
  of_it c = c.node_id == node_id

  keep_twice : (xs : List WalChunk) → keep of_it (keep of_it xs) ≡ keep of_it xs
  keep_twice [] = refl
  keep_twice (c ∷ cs) = elim (Bool-cases (of_it c)) [
    | inl t ↦ rw (t, keep_twice cs) (rw t refl)
    | inr f ↦ rw (f, keep_twice cs) refl
  ]

  rows_of-ordered_rows :
      rows_of chunk_size node_id (ordered_rows node_id rows) ≡ ordered_rows node_id rows
  rows_of-ordered_rows =
      keep-order_by (λ (c : WalChunk). c.seq) of_it (keep of_it rows)
      ∙ ap (order_by (λ (c : WalChunk). c.seq)) (keep_twice rows)

  -- The statement finds the same rows, whatever their places in the table.
  chunks_in-ordered_rows :
      (first last : ℕ)
      → IsChunked chunk_size 0 (ordered_rows node_id rows)
      → chunks_in node_id first last rows ≡ chunks_in node_id first last (ordered_rows node_id rows)
  unfolding chunks_in
  chunks_in-ordered_rows first last h =
      let between = λ (c : WalChunk). leb first c.seq && leb c.seq last in
      ap (order_by (λ (c : WalChunk). c.seq)) (sym (keep-keep between of_it rows))
      ∙ sym (keep-order_by (λ (c : WalChunk). c.seq) between (keep of_it rows))
      ∙ ap (keep between) (sym rows_of-ordered_rows)
      ∙ sym (
          chunks_in-between chunk_size node_id first last (ordered_rows node_id rows)
            (rw rows_of-ordered_rows h))

-- For a chunk size that is not zero, ReadRange returns the bytes [offset, offset + length) of the
-- content that the node's chunks spell out in the order of their numbers, cut at its end, if they
-- are numbered from 0 without a gap and all full but the last, wherever they stand in the table
-- and whatever other rows it holds.
pub range_of-slice :
    (chunk_size : ℕ)
    → 0 < chunk_size
    → (node_id offset len : ℕ) (rows : List WalChunk)
    → IsChunked chunk_size 0 (ordered_rows node_id rows)
    → range_of chunk_size node_id offset len rows
      ≡ take len (drop offset (assemble (ordered_rows node_id rows)))
unfolding range_of
range_of-slice c positive node_id offset len rows h =
    let same = rows_of-ordered_rows c node_id rows in
    rw (chunks_in-ordered_rows c node_id rows (offset / c) ((offset + len - 1) / c) h) (
      range_of_in_order c positive node_id offset len (ordered_rows node_id rows) (rw same h)
      ∙ ap (λ rs. take len (drop offset (assemble rs))) same)
