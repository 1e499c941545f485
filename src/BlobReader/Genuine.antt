-- ===== src/BlobReader/Genuine.antt =====
-- Whatever ReadBlob gives has passed the check of its hash, and so has whatever it leaves in the cache.
use tgwebdav.Base.{
  ◌≡◌, refl, sym, ap, ◌∙◌, subst, Bool, true, not, ◌||◌, Option, none, some, List, [], ◌∷◌, ◌==◌,
  ==_iff, find_first, some_by, find_first-test, length, bytes_eq, Bool-cases, inl, inr,
}
use tgwebdav.BlobCache.{Cache, get}
use tgwebdav.BlobCache.Files.{put-written, get-IsSub, get-disk}
use tgwebdav.BlobReader.{
  ReaderEnv, is_intact, delete_nodes, perm_body, mark_perm_unavailable, cache_get, cache_put,
  if_cached, read_blob,
}
use tgwebdav.BlobReader.Attempts.{Keeps-from_telegram}
use tgwebdav.Model.{Uuid, Instant, Bytes, Blob, BlobState, perm_unavailable, EventKind}
use tgwebdav.Repository.Blobs.{
  get_blob, found_blob, find_blob, set_state, set_state_in, update_where,
}
use tgwebdav.Repository.Events.{log}
use tgwebdav.Repository.Extents.{list_nodes_solely_on_blob}
use tgwebdav.Repository.Nodes.{delete_node, delete_from, cascade}
use tgwebdav.Store.{Result, err, ok, Reply, World, Exec, NodeRow, next_fault}
use tgwebdav.Store.Always.{
  Always, Any, Always-pure, Always-map, Always-query, Always-with_tx, Always-bind, Always-ignore,
  Always-get_now, Always-new_id, Always-fail_if,
}

-- the content hash of the blob with an id, if there is one
abbrev pub hash_in : Option Blob → Option Bytes
hash_in none = none
hash_in (some b) = some b.content_hash

abbrev pub hash_of : Uuid → List Blob → Option Bytes
hash_of id bs = hash_in (find_first (λ (b : Blob). b.id == id) bs)

-- An update of other columns leaves the hashes as they are.
hash_of-update_where :
    (p : Blob → Bool) (s : BlobState) (id : Uuid) (bs : List Blob)
    → hash_of id (update_where p (λ b. record b { state = s }) bs) ≡ hash_of id bs
hash_of-update_where p s id [] = refl
hash_of-update_where p s id (b ∷ bs) = elim (Bool-cases (p b)) [
  | inl t ↦ elim (Bool-cases (b.id == id)) [
    | inl same ↦ rw (t, same) refl
    | inr other ↦ rw (t, other) (hash_of-update_where p s id bs)
  ]
  | inr f ↦ elim (Bool-cases (b.id == id)) [
    | inl same ↦ rw (f, same) refl
    | inr other ↦ rw (f, other) (hash_of-update_where p s id bs)
  ]
]

abbrev pub HashMatches : ReaderEnv → Bytes → Bytes → Type 0
HashMatches env hash bytes = (length hash == 0 || bytes_eq (env.sha256 bytes) hash) ≡ true

-- A file of the cache passes the check of its blob's hash.
abbrev pub IsGenuine : ReaderEnv → (Uuid → Option Bytes) → Cache → Type 0
IsGenuine env hashes c =
    (id : Uuid) (bytes hash : Bytes)
    → c.disk id ≡ some bytes
    → hashes id ≡ some hash
    → HashMatches env hash bytes

module _ (env : ReaderEnv) (hashes : Uuid → Option Bytes) where
  abbrev Hashes : List Blob → List NodeRow → Type 0
  Hashes bs ns = (id : Uuid) → hash_of id bs ≡ hashes id

  abbrev InCache : Cache → List Reply → List (Bytes × Instant) → Type 0
  InCache c rs vc = IsGenuine env hashes c

  abbrev Keeps : {A : Type 0} → Exec A → (A → Type 0) → Type 0
  Keeps m Q = Always (λ d. Hashes d.blobs d.nodes) InCache m Q

  -- A blob that was read, with the hash that its id has.
  abbrev Known : Blob → Type 0
  Known b = hashes b.id ≡ some b.content_hash

  Keeps-set_state : (id : Uuid) (s : BlobState) → Keeps (set_state id s) Any
  unfolding set_state set_state_in
  Keeps-set_state id s = Always-query _ (λ d h.
      elim (Bool-cases (some_by (λ (b : Blob). b.id == id) d.blobs)) [
        | inl t ↦ rw t ((λ k. hash_of-update_where (λ b. b.id == id) s k d.blobs ∙ h k), λ a e. tt)
        | inr f ↦ rw f (h, λ a e. tt)
      ])

  Keeps-delete_node : (id : Uuid) → Keeps (delete_node id) Any
  unfolding delete_node delete_from cascade
  Keeps-delete_node id = Always-query _ (λ d h.
      elim (Bool-cases (some_by (λ (r : NodeRow). r.node.id == id) d.nodes)) [
        | inl t ↦ rw t (h, λ a e. tt)
        | inr f ↦ rw f (h, λ a e. tt)
      ])

  Keeps-log : (kind : EventKind) (ref : Uuid) → Keeps (log env.uuids kind ref) Any
  unfolding log
  Keeps-log kind ref =
      Always-bind Any _ _ (Always-new_id env.uuids) (λ id _.
        Always-bind Any _ _ Always-get_now (λ now _. Always-query _ (λ d h. (h, λ a e. tt))))

  Keeps-delete_nodes : (ids : List Uuid) → Keeps (delete_nodes env ids) Any
  unfolding delete_nodes
  Keeps-delete_nodes [] = Always-pure tt tt
  Keeps-delete_nodes (id ∷ ids) =
      Always-bind Any _ _ (Keeps-delete_node id)
        (λ _ _. Always-bind Any _ _ (Keeps-log _ id) (λ _ _. Keeps-delete_nodes ids))

  Keeps-mark_perm : (blob : Blob) → Keeps (mark_perm_unavailable env blob) Any
  unfolding mark_perm_unavailable perm_body list_nodes_solely_on_blob
  Keeps-mark_perm blob = Always-ignore _ (
      Always-with_tx _ (
        Always-bind Any _ _ (Keeps-set_state blob.id perm_unavailable) (λ _ _.
          Always-bind Any _ _ (Keeps-log _ blob.id) (λ _ _.
            Always-bind Any _ _ (Always-query _ (λ d h. (h, λ a e. tt)))
              (λ ids _. Keeps-delete_nodes ids)))))

  Keeps-cache_put :
      (blob : Blob) (bytes : Bytes)
      → Known blob
      → is_intact env blob bytes ≡ true
      → Keeps (cache_put env blob.id bytes) Any
  unfolding is_intact
  Keeps-cache_put blob bytes known fair = record {
    at = λ w d c. (
      d,
      λ id x hash h k.
          elim (put-written env.can_remove (not (next_fault w.faults).0) w.cache blob.id bytes w.now
            id x h) [
              | inl (i, j) ↦
                  let known' : hashes id ≡ some blob.content_hash = rw i known in
                  let same : blob.content_hash ≡ hash = cc (known', k) in
                  subst (λ b. HashMatches env hash b) (sym j)
                    (subst (λ y. HashMatches env y bytes) same fair)
              | inr old ↦ c id x hash old k
            ],
      λ a e. tt,
    );
  }

  Keeps-cache_get :
      (id : Uuid) (hash : Bytes)
      → hashes id ≡ some hash
      → Keeps
          (cache_get env id)
          (λ o. (bytes : Bytes) → o ≡ some bytes → HashMatches env hash bytes)
  Keeps-cache_get id hash known = record {
    at = λ w d c. (
      d,
      λ k x y h. c k x y (get-IsSub env.can_remove w.cache id w.now k x h),
      λ o e bytes h.
          let found : (get env.can_remove w.cache id w.now).1 ≡ some bytes = cc (e, h) in
          c id bytes hash (get-disk env.can_remove w.cache id w.now bytes found) known,
    );
  }

  Keeps-get_blob : (id : Uuid) → Keeps (get_blob id) (λ b. (b.id ≡ id) × Known b)
  unfolding get_blob find_blob
  Keeps-get_blob id = Always-query _ (λ d h. (
    h,
    λ b e.
        let (f, i) = found (find_first (λ (x : Blob). x.id == id) d.blobs) b e in
        let same : b.id ≡ id =
          (==_iff b.id id).0 (find_first-test (λ (x : Blob). x.id == id) d.blobs b f) in
        (same, rw same (sym (h id) ∙ ap hash_in f)),
  ))
    where
      found : (o : Option Blob) (b : Blob) → found_blob o ≡ ok b → (o ≡ some b) × Unit {0}
      found none b e = cc e
      found (some c) b e = let same : c ≡ b = cc e in (ap some same, tt)

  -- The bytes have passed the check of the hash that the id's blob has.
  abbrev IsChecked : Uuid → Bytes → Type 0
  IsChecked id bytes = (hash : Bytes) × (hashes id ≡ some hash) × HashMatches env hash bytes

  Keeps-if_cached :
      (id : Uuid) (blob : Blob)
      → blob.id ≡ id
      → Known blob
      → (o : Option Bytes)
      → ((bytes : Bytes) → o ≡ some bytes → HashMatches env blob.content_hash bytes)
      → Keeps (if_cached env blob o) (IsChecked id)
  unfolding is_intact
  Keeps-if_cached id blob same known (some bytes) h =
      Always-pure bytes (blob.content_hash, rw (← same) known, h bytes refl)
  Keeps-if_cached id blob same known none h =
      Always-map (λ bytes. is_intact env blob bytes ≡ true) (IsChecked id)
        (λ bytes fair. (blob.content_hash, rw (← same) known, fair))
        (Keeps-from_telegram env Hashes InCache Unit (λ c rs vc k. (k, λ _. tt)) Known
          Keeps-cache_put (λ b _. Keeps-mark_perm b) blob known)

  Keeps-read_blob : (id : Uuid) → Keeps (read_blob env id) (IsChecked id)
  unfolding read_blob
  Keeps-read_blob id = Always-bind _ _ _ (Keeps-get_blob id) (λ blob (same, known).
      Always-bind _ _ _ (Always-fail_if _ _) (λ _ _.
        Always-bind _ _ _ (Keeps-cache_get id blob.content_hash (rw (← same) known))
          (λ o h. Keeps-if_cached id blob same known o h)))

-- Bytes that ReadBlob returns pass the check of the hash that the blob had; of an error nothing is said.
abbrev pub IsVouched : ReaderEnv → Option Bytes → Result Bytes → Type 0
IsVouched env known (ok bytes) =
    (hash : Bytes) × (known ≡ some hash)
    × ((length hash == 0 || bytes_eq (env.sha256 bytes) hash) ≡ true)
IsVouched env known (err e) = Unit

-- If every file of the cache passes the check of its blob's hash, then after ReadBlob, whatever
-- fails and whatever Telegram answers, so does every file of the cache by the blobs then in the
-- table; and bytes that it returns pass the check of the hash that the id's blob had: they have
-- this SHA-256, or the hash is empty.
pub read_blob-IsGenuine :
    (env : ReaderEnv) (id : Uuid) (w : World)
    → IsGenuine env (λ k. hash_of k w.db.blobs) w.cache
    → IsGenuine env (λ k. hash_of k (read_blob env id w).1.db.blobs) (read_blob env id w).1.cache
      × IsVouched env (hash_of id w.db.blobs) (read_blob env id w).0
read_blob-IsGenuine env id w g =
    let k = (Keeps-read_blob env (λ k. hash_of k w.db.blobs) id).at w (λ _. refl) g in
    (λ i bytes hash h e. k.1 i bytes hash h (sym (k.0 i) ∙ e), vouched (read_blob env id w).0 k.2)
  where
    vouched :
        (r : Result Bytes)
        → ((bytes : Bytes)
            → r ≡ ok bytes
            → (hash : Bytes) × (hash_of id w.db.blobs ≡ some hash)
              × ((length hash == 0 || bytes_eq (env.sha256 bytes) hash) ≡ true))
        → IsVouched env (hash_of id w.db.blobs) r
    vouched (ok bytes) h = h bytes refl
    vouched (err e) h = tt
