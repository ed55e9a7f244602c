-- ===== src/Service/Expiry.antt =====
-- What the cleanup pass removes.
use ad_artifacts.Base.{
  ℕ, ◌+◌, String, ◌≡◌, refl, ap, Bool, true, false, not, ◌&&◌, ◌||◌, none, List, [], ◌∷◌, ◌==◌,
  arith, if◌then◌else◌, Bool-cases, inl, inr, ltb, eqb, eq_iff, is_some,
}
use ad_artifacts.Core.{PayloadEntry}
use ad_artifacts.Core.Fetch.{is_expired}
use ad_artifacts.Dict.{get}
use ad_artifacts.Dict.Laws.{get-remove}
use ad_artifacts.Store.State.{Store}
use ad_artifacts.Store.Payloads.{
  list_payload_entries, payload_pin_count, remove_payload, drop_payload, forget_task,
}
use ad_artifacts.Service.Maintenance.{remove_expired, cleanup_expired_metadata}

-- An expired entry of the key is among the entries.
abbrev pub has_expired : ℕ → String → List PayloadEntry → Bool
has_expired now key [] = false
has_expired now key (e ∷ es) = (e.cache_key == key && is_expired now e) || has_expired now key es

module _ {F : Type 0} where
  abbrev goes : ℕ → String → List PayloadEntry → Store F → Bool
  goes now key es s = has_expired now key es && eqb (payload_pin_count key s) 0

  -- Removing an unpinned payload takes its entry away, and no pins of others.
  module _ (key other : String) (s : Store F) (free : ltb 0 (payload_pin_count key s) ≡ false) where
    remove_payload-get :
        get other (remove_payload key s).1.payload_entries
        ≡ (if key == other then none else get other s.payload_entries)
    unfolding drop_payload forget_task remove_payload
    remove_payload-get = ground (
      arith,
      free,
      get-remove key other s.payload_entries,
      eq_iff key other,
      ap (λ k. get k s.payload_entries),
    )

    remove_payload-pin_count :
        payload_pin_count other (remove_payload key s).1 ≡ payload_pin_count other s
    unfolding drop_payload forget_task remove_payload payload_pin_count
    remove_payload-pin_count = ground (
      arith,
      free,
      get-remove key other s.payload_pins,
      eq_iff key other,
      ap (λ k. get k s.payload_pins),
    )

  remove_expired_lem :
      (now : ℕ) (es : List PayloadEntry) (count : ℕ) (s : Store F) (key : String)
      → let s' = (remove_expired now es count s).1 in
        (get key s'.payload_entries
          ≡ (if goes now key es s then none else get key s.payload_entries))
        × (payload_pin_count key s' ≡ payload_pin_count key s)
  unfolding remove_expired
  remove_expired_lem now [] count s key = (refl, refl)
  remove_expired_lem now (e ∷ es) count s key =
      elim (Bool-cases (not (is_expired now e) || ltb 0 (payload_pin_count e.cache_key s))) [
        | inl stays ↦
            let (gone, pins) = remove_expired_lem now es count s key in
            (
              ground (arith, stays, gone, eq_iff e.cache_key key, ap (λ k. payload_pin_count k s)),
              ground (arith, stays, pins),
            )
        | inr expired ↦
            let free : ltb 0 (payload_pin_count e.cache_key s) ≡ false = ground (arith, expired) in
            let old : is_expired now e ≡ true = ground (arith, expired) in
            let (removed, t) = remove_payload e.cache_key s in
            let count' = if is_some removed then count + 1 else count in
            let (gone, pins) = remove_expired_lem now es count' t key in
            let there = remove_payload-get e.cache_key key s free in
            let same = remove_payload-pin_count e.cache_key key s free in
            (
              ground (
                arith,
                expired,
                old,
                gone,
                there,
                same,
                eq_iff e.cache_key key,
                ap (λ k. payload_pin_count k s),
              ),
              ground (arith, expired, pins, same),
            )
      ]

  -- After the cleanup a payload's entry is gone if an entry of that key had expired and no job pinned it, and
  -- is as before otherwise; every payload is pinned by as many jobs as before.
  pub cleanup_expired_metadata_lem :
      (now : ℕ) (s : Store F) (key : String)
      → let s' = (cleanup_expired_metadata now s).1 in
        (get key s'.payload_entries ≡ (
          if has_expired now key (list_payload_entries s) && eqb (payload_pin_count key s) 0
          then none
          else get key s.payload_entries))
        × (payload_pin_count key s' ≡ payload_pin_count key s)
  unfolding cleanup_expired_metadata
  cleanup_expired_metadata_lem now s key = remove_expired_lem now (list_payload_entries s) 0 s key
