-- ===== src/Proto/RoundTrips.antt =====
-- What is sent as a message arrives as it was.
use ad_artifacts.Base.{
  String, ◌≡◌, refl, sym, ap, ◌∙◌, Bool, true, false, Option, none, some, List, [], ◌∷◌, ◌++◌, ◌==◌,
  arith, All, is_some, or_default, if◌then◌else◌, not, ◌&&◌, eq_iff,
}
use ad_artifacts.Base.Int.{ℤ, pos, is_positive}
use ad_artifacts.Core.{
  Sample, Dataset, Batch, BatchHandle, HandleStatus, Metadata, Value, text, int, flag, format, str,
  ok, PayloadFormat, torch_batch,
}
use ad_artifacts.Dict.{Dict, get, put}
use ad_artifacts.Dict.Distinct.{IsDistinct}
use ad_artifacts.Store.Metrics.{text_at}
use ad_artifacts.Proto.{
  add_items, kv_list_to_dict, dict_to_kv_list, or_none, sample_from_proto, sample_to_proto,
  samples_from_proto, samples_to_proto, dataset_from_proto, dataset_to_proto, batch_from_proto,
  batch_to_proto, batch_handle_from_proto, batch_handle_to_proto, batch_handle_status_from_proto,
  batch_handle_status_to_proto, payload_format_from_string, payload_format_to_string,
  optional_payload_format,
}

abbrev pub is_text : Value → Bool
is_text (text s) = true
is_text (int n) = false
is_text (flag b) = false
is_text (format p) = false

-- A text that a message can tell from a missing one.
abbrev pub is_named : Option String → Bool
is_named none = true
is_named (some s) = not (s == "")

abbrev pub is_plain : Sample → Bool
is_plain s = is_named s.class_name && is_named s.transform_name

-- Metadata as a message carries them: texts, under different keys.
pub record IsTexts (d : Metadata) : Type 0 where
  pub texts : All (λ e. is_text e.1 ≡ true) d
  pub distinct : IsDistinct d

module _ {ℓ} {V : Type ℓ} where
  put-new : (k : String) (v : V) (d : Dict V) → get k d ≡ none → put k v d ≡ d ++ ((k, v) ∷ [])
  unfolding get put
  put-new k v [] new = refl
  put-new k v ((j, w) ∷ d) new = ground (arith, new, put-new k v d)

  get-last :
      (j k : String) (v : V) (d : Dict V)
      → get j d ≡ none
      → (k == j) ≡ false
      → get j (d ++ ((k, v) ∷ [])) ≡ none
  unfolding get
  get-last j k v [] new other = ground (arith, other)
  get-last j k v ((i, w) ∷ d) new other = ground (arith, new, get-last j k v d)

  -- No key of the one dict is in the other.
  abbrev Apart : Dict V → Dict V → Type ℓ
  Apart d [] = Unit
  Apart d (e ∷ es) = (get e.0 d ≡ none) × Apart d es

  Apart-last :
      (k : String) (v : V) (d e : Dict V)
      → get k e ≡ none
      → Apart d e
      → Apart (d ++ ((k, v) ∷ [])) e
  unfolding get
  Apart-last k v d [] new apart = tt
  Apart-last k v d ((j, w) ∷ e) new apart = (
    get-last j k v d apart.0 (ground (arith, new, eq_iff k j, eq_iff j k)),
    Apart-last k v d e (ground (arith, new)) apart.1,
  )

append-nil {ℓ} : {A : Type ℓ} (xs : List A) → xs ++ [] ≡ xs
append-nil [] = refl
append-nil (x ∷ xs) = ap (◌∷◌ x) (append-nil xs)

append_assoc {ℓ} : {A : Type ℓ} (xs ys zs : List A) → (xs ++ ys) ++ zs ≡ xs ++ (ys ++ zs)
append_assoc [] ys zs = refl
append_assoc (x ∷ xs) ys zs = ap (◌∷◌ x) (append_assoc xs ys zs)

add_items-dict_to_kv_list :
    (d e : Metadata)
    → Apart d e
    → IsDistinct e
    → All (λ x. is_text x.1 ≡ true) e
    → add_items d (dict_to_kv_list e) ≡ d ++ e
unfolding add_items dict_to_kv_list str
add_items-dict_to_kv_list d [] apart distinct texts = sym (append-nil d)
add_items-dict_to_kv_list d ((k, text v) ∷ e) apart distinct texts =
    ap (λ t. add_items t (dict_to_kv_list e)) (put-new k (text v) d apart.0)
    ∙ (add_items-dict_to_kv_list (d ++ ((k, text v) ∷ [])) e
          (Apart-last k (text v) d e distinct.0 apart.1) distinct.1 texts.1
        ∙ append_assoc d ((k, text v) ∷ []) e)
add_items-dict_to_kv_list d ((k, int v) ∷ e) apart distinct texts = absurd (ground (arith, texts.0))
add_items-dict_to_kv_list d ((k, flag v) ∷ e) apart distinct texts =
    absurd (ground (arith, texts.0))
add_items-dict_to_kv_list d ((k, format v) ∷ e) apart distinct texts =
    absurd (ground (arith, texts.0))

Apart-empty : {V : Type 0} (d : Dict V) → Apart [] d
unfolding get
Apart-empty [] = tt
Apart-empty (e ∷ es) = (refl, Apart-empty es)

metadata_round_trip : (d : Metadata) → IsTexts d → kv_list_to_dict (dict_to_kv_list d) ≡ d
unfolding kv_list_to_dict
metadata_round_trip d h = add_items-dict_to_kv_list [] d (Apart-empty d) h.distinct h.texts

or_none-or_default : (o : Option String) → is_named o ≡ true → or_none (or_default o "") ≡ o
or_none-or_default none named = refl
or_none-or_default (some t) named = ground (arith, named)

label_round_trip : (o : Option ℤ) → (if is_some o then some (or_default o (pos 0)) else none) ≡ o
label_round_trip none = refl
label_round_trip (some n) = refl

sample_round_trip : (s : Sample) → is_plain s ≡ true → sample_from_proto (sample_to_proto s) ≡ s
unfolding sample_from_proto sample_to_proto
sample_round_trip s plain = λ i. record s {
  label = label_round_trip s.label i;
  class_name = or_none-or_default s.class_name (ground (arith, plain)) i;
  transform_name = or_none-or_default s.transform_name (ground (arith, plain)) i;
}

samples_round_trip :
    (ss : List Sample)
    → All (λ s. is_plain s ≡ true) ss
    → samples_from_proto (samples_to_proto ss) ≡ ss
unfolding samples_from_proto samples_to_proto
samples_round_trip [] plain = refl
samples_round_trip (s ∷ ss) plain =
    λ i. sample_round_trip s plain.0 i ∷ samples_round_trip ss plain.1 i

payload_format_round_trip :
    (f : PayloadFormat) (other : String)
    → let sent = payload_format_to_string (some f) in
      payload_format_from_string (if sent == "" then other else sent) ≡ ok f
unfolding payload_format_from_string payload_format_to_string
payload_format_round_trip torch_batch other = refl

optional_payload_format_round_trip :
    (f : Option PayloadFormat) → optional_payload_format (payload_format_to_string f) ≡ ok f
unfolding optional_payload_format payload_format_to_string payload_format_from_string
optional_payload_format_round_trip none = refl
optional_payload_format_round_trip (some torch_batch) = refl

status_round_trip :
    (v : HandleStatus) → batch_handle_status_from_proto (batch_handle_status_to_proto v) ≡ ok v
unfolding batch_handle_status_from_proto batch_handle_status_to_proto
status_round_trip HandleStatus.pending = refl
status_round_trip HandleStatus.ready = refl
status_round_trip HandleStatus.failed = refl

-- A dataset with a format name, text metadata and no empty optional texts arrives as it was sent.
pub dataset_from_proto-to_proto :
    (d : Dataset)
    → All (λ s. is_plain s ≡ true) d.samples
    → is_named d.transform_name ≡ true
    → (d.dataset_format == "") ≡ false
    → IsTexts d.metadata
    → dataset_from_proto (dataset_to_proto d) ≡ ok d
unfolding dataset_from_proto dataset_to_proto
dataset_from_proto-to_proto d plain named formatted texts =
    rw
      (
        payload_format_round_trip d.payload_format
            (text_at "payload_format" "" (kv_list_to_dict (dict_to_kv_list d.metadata))),
        formatted,
      )
      (λ i. ok (record d {
        samples = samples_round_trip d.samples plain i;
        transform_name = or_none-or_default d.transform_name named i;
        metadata = metadata_round_trip d.metadata texts i;
      }))

-- The handle's time of expiry is none or positive.
abbrev pub expires : Option ℤ → Bool
expires none = true
expires (some t) = is_positive t

expiry_round_trip :
    (o : Option ℤ)
    → expires o ≡ true
    → (if is_positive (or_default o (pos 0)) then some (or_default o (pos 0)) else none) ≡ o
expiry_round_trip none positive = refl
expiry_round_trip (some t) positive = rw positive refl

-- A handle that expires never or at a positive time, with text metadata, arrives as it was sent.
pub batch_handle_from_proto-to_proto :
    (h : BatchHandle)
    → expires h.expires_at_ms ≡ true
    → IsTexts h.metadata
    → batch_handle_from_proto (batch_handle_to_proto h) ≡ ok h
unfolding batch_handle_from_proto batch_handle_to_proto payload_format_from_string
    payload_format_to_string optional_payload_format batch_handle_status_from_proto
    batch_handle_status_to_proto
batch_handle_from_proto-to_proto h positive texts =
    rw (optional_payload_format_round_trip h.payload_format, status_round_trip h.status)
      (λ i. ok (record h {
        expires_at_ms = expiry_round_trip h.expires_at_ms positive i;
        metadata = metadata_round_trip h.metadata texts i;
      }))

-- A batch with text metadata and no empty optional texts arrives as it was sent.
pub batch_from_proto-to_proto :
    (b : Batch)
    → All (λ s. is_plain s ≡ true) b.samples
    → is_named b.transform_name ≡ true
    → IsTexts b.metadata
    → batch_from_proto (batch_to_proto b) ≡ b
unfolding batch_from_proto batch_to_proto
batch_from_proto-to_proto b plain named texts = λ i. record b {
  samples = samples_round_trip b.samples plain i;
  transform_name = or_none-or_default b.transform_name named i;
  metadata = metadata_round_trip b.metadata texts i;
}
