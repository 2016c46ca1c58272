-- ===== src/Sink/Lookup.antt =====
-- internal/hub/sinks.go and internal/storage/minio.go: look-ups in the maps, and the keys of objects.
use mathlib.Core.List.{append_assoc}
use crawler_lite.Prelude.Base.{
  ℕ, ◌<◌, ◌^◌, ◌==◌, ◌≡◌, ◌≢◌, refl, sym, ap, ◌∙◌, false, some, List, [], ◌∷◌, ◌++◌, arith,
}
use crawler_lite.Prelude.Text.{Str, codes, str_eq_iff, str_eq_refl}
use crawler_lite.Notify.Format.{decimal}
use crawler_lite.Notify.Decimal.{read, read-digits}
use crawler_lite.Sink.Model.{LogBuffer, find_buffer, put_buffer, find_object, put_object, log_key}
use crawler_lite.Sink.Log.{jsonl}

pub find-put_buffer :
    (id : ℕ) (b : LogBuffer) (bs : List (ℕ × LogBuffer))
    → find_buffer id (put_buffer id b bs) ≡ some b
find-put_buffer id b [] = ground arith
find-put_buffer id b ((k, c) ∷ bs) = ground (arith, find-put_buffer id b bs)

pub find-put_buffer_other :
    (id k : ℕ) (b : LogBuffer) (bs : List (ℕ × LogBuffer))
    → (id == k) ≡ false
    → find_buffer k (put_buffer id b bs) ≡ find_buffer k bs
find-put_buffer_other id k b [] e = ground arith
find-put_buffer_other id k b ((j, c) ∷ bs) e = ground (arith, find-put_buffer_other id k b bs e)

pub find-put_object :
    (key b : Str) (os : List (Str × Str)) → find_object key (put_object key b os) ≡ some b
find-put_object key b [] = ground (arith, str_eq_refl key)
find-put_object key b ((k, c) ∷ os) = ground (arith, find-put_object key b os)

pub find-put_object_other :
    (key other b : Str) (os : List (Str × Str))
    → key ≢ other
    → find_object other (put_object key b os) ≡ find_object other os
find-put_object_other key other b [] n = ground (arith, str_eq_iff key other)
find-put_object_other key other b ((k, c) ∷ os) n =
    ground (arith, find-put_object_other key other b os n, str_eq_iff k key, str_eq_iff k other)

pub jsonl-append : (xs ys : List Str) → jsonl (xs ++ ys) ≡ jsonl xs ++ jsonl ys
jsonl-append [] ys = refl
jsonl-append (x ∷ xs) ys =
    ap (λ t. x ++ (10 ∷ t)) (jsonl-append xs ys) ∙ sym (append_assoc x (10 ∷ jsonl xs) (jsonl ys))

-- The number in a key.
key_number : Str → ℕ
key_number (_ ∷ _ ∷ _ ∷ _ ∷ _ ∷ _ ∷ s) = read 0 s
key_number _ = 0

key_number-log_key : (task : ℕ) → task < 2 ^ 63 → key_number (log_key task) ≡ task
unfolding key_number log_key decimal
key_number-log_key task h =
    read-digits 20 task (codes "/log.jsonl") (omega arith) (omega (arith, h))

-- Two tasks have different objects.
pub log_key-injective : (s t : ℕ) → s < 2 ^ 63 → t < 2 ^ 63 → log_key s ≡ log_key t → s ≡ t
log_key-injective s t h k e =
    sym (key_number-log_key s h) ∙ ap key_number e ∙ key_number-log_key t k
