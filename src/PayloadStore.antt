-- ===== src/PayloadStore.antt =====
-- batchflow/data_worker/payload_store.py: a worker's own store of payload bytes. The state is the dict of
-- payloads; the clock is an argument. Each method holds the lock, so a run is a sequence of calls.
pub mod Cleanup
use ad_artifacts.Base.{
  ℕ, ◌+◌, String, Bool, true, false, not, ◌&&◌, Option, none, some, List, [], ◌∷◌, eqb, leb,
  if◌then◌else◌, length, sum_by,
}
use ad_artifacts.Base.Int.{pos, pos_part}
use ad_artifacts.Dict.{Dict, get, put, remove, update, values, has}
use ad_artifacts.Floats.{Floats}

-- `payload` is the list of the bytes.
pub record StoredPayload : Type 0 where
  pub payload : List ℕ
  pub payload_format : String
  pub created_at_ms : ℕ
  pub last_accessed_at_ms : ℕ
  pub evict_after_ms : ℕ

abbrev pub Payloads : Type 0
Payloads = Dict StoredPayload

abbrev pub size_bytes : StoredPayload → ℕ
size_bytes p = length p.payload

-- The end of the time to live; 0 stands for no end.
unfoldable pub evict_after : {F : Type 0} ⦃f : Floats F⦄ → ℕ → Option F → ℕ
evict_after now none = 0
evict_after ⦃f⦄ now (some ttl) =
    if f.lt f.zero ttl then now + pos_part (f.trunc (f.mul ttl (f.of_ℤ (pos 1000)))) else 0

unfoldable pub put_payload :
    {F : Type 0} ⦃f : Floats F⦄ → ℕ → String → List ℕ → String → Option F → Payloads → ℕ × Payloads
put_payload now key payload payload_format ttl d =
    let until = evict_after now ttl in
    (
      until,
      put key
          (record {
            payload = payload;
            payload_format = payload_format;
            created_at_ms = now;
            last_accessed_at_ms = now;
            evict_after_ms = until;
          })
          d,
    )

-- The entry is touched in place, and the same object is returned.
unfoldable pub get_payload : ℕ → String → Payloads → Option StoredPayload × Payloads
get_payload now key d =
    let touched = update key (λ p. record p { last_accessed_at_ms = now }) d in
    (get key touched, touched)

unfoldable pub contains : String → Payloads → Bool
contains key d = has key d

unfoldable pub remove_stored : String → Payloads → Bool × Payloads
remove_stored key d = (has key d, remove key d)

unfoldable pub size : Payloads → ℕ
size d = length d

unfoldable pub total_bytes : Payloads → ℕ
total_bytes d = sum_by size_bytes (values d)

-- `entry.evict_after_ms and entry.evict_after_ms <= current_time_ms`
abbrev pub is_overdue : ℕ → StoredPayload → Bool
is_overdue now p = not (eqb p.evict_after_ms 0) && leb p.evict_after_ms now

unfoldable pub expired_keys : ℕ → Payloads → List String
expired_keys now [] = []
expired_keys now ((k, p) ∷ d) =
    if is_overdue now p then k ∷ expired_keys now d else expired_keys now d

-- `for key in expired_keys: del self._payloads[key]`
unfoldable pub remove_keys : List String → Payloads → Payloads
remove_keys [] d = d
remove_keys (k ∷ ks) d = remove_keys ks (remove k d)

unfoldable pub cleanup_expired : ℕ → Payloads → ℕ × Payloads
cleanup_expired now d = let keys = expired_keys now d in (length keys, remove_keys keys d)

pub data PayloadCall (F : Type 0) : Type 0 where
  put_call :
      (now : ℕ) → (key : String) → List ℕ → (payload_format : String) → Option F → PayloadCall F
  get_call : (now : ℕ) → (key : String) → PayloadCall F
  remove_call : (key : String) → PayloadCall F
  clear_call : PayloadCall F
  cleanup_call : (now : ℕ) → PayloadCall F

module _ {F : Type 0} ⦃f : Floats F⦄ where
  unfoldable pub payload_step : PayloadCall F → Payloads → Payloads
  payload_step (put_call now key payload format ttl) d =
      (put_payload now key payload format ttl d).1
  payload_step (get_call now key) d = (get_payload now key d).1
  payload_step (remove_call key) d = (remove_stored key d).1
  payload_step clear_call d = []
  payload_step (cleanup_call now) d = (cleanup_expired now d).1

  unfoldable pub payload_run : List (PayloadCall F) → Payloads → Payloads
  payload_run [] d = d
  payload_run (c ∷ cs) d = payload_run cs (payload_step c d)
