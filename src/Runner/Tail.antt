-- ===== src/Runner/Tail.antt =====
-- internal/runner/executor.go: the tail of uv's error output (lineTail), streamUV, uvCmdLabel and the
-- error text of a failed install.
use crawler_lite.Prelude.Base.{
  ℕ, zero, suc, ◌+◌, ◌-◌, ◌≤◌, ◌≡◌, refl, sym, ap, ◌∙◌, inl, inr, Bool, true, false, not, List, [],
  ◌∷◌, ◌++◌, length, length-append, drop, keep, ltb, if◌then◌else◌, Bool-cases, arith,
}
use mathlib.Core.List.{append_assoc, append-nil}
use crawler_lite.Prelude.Int.{ℤ}
use crawler_lite.Prelude.Text.{Str, codes, str_eq, is_empty, trim_space, Unicode}
use crawler_lite.Hub.Model.{WorkerMsg, log_line}

abbrev pub max_lines : ℕ
max_lines = 5

abbrev pub is_text : Unicode → Str → Bool
is_text u line = not (is_empty (trim_space u line))

-- lineTail.add
unfoldable pub add : Unicode → Str → List Str → List Str
add u line lines =
    let longer = lines ++ (line ∷ []) in
    if is_text u line
    then if ltb max_lines (length longer) then drop (length longer - max_lines) longer else longer
    else lines

-- lineTail.snapshot
unfoldable pub snapshot : List Str → Str
snapshot [] = []
snapshot (l ∷ []) = l
snapshot (l ∷ m ∷ ls) = l ++ (10 ∷ snapshot (m ∷ ls))

-- emitDepsLog
abbrev pub deps_log : ℕ → ℤ → Str → Str → WorkerMsg
deps_log task now level message =
    log_line
      (record { task_id = task; ts_ns = now; level = level; message = codes "[deps] " ++ message })

-- streamUV over the lines, each with the time at which it is read: the tail, and the messages sent.
unfoldable pub stream_uv :
    Unicode → ℕ → Str → List (ℤ × Str) → List Str × List WorkerMsg → List Str × List WorkerMsg
unfolding add
stream_uv u task level [] (tail, out) = (tail, out)
stream_uv u task level ((now, line) ∷ rest) (tail, out) =
    stream_uv u task level rest (add u line tail, out ++ (deps_log task now level line ∷ []))

-- uvCmdLabel
unfoldable pub uv_cmd_label : List Str → Str
uv_cmd_label [] = codes "uv"
uv_cmd_label (a ∷ []) = codes "uv " ++ a
uv_cmd_label (a ∷ b ∷ rest) =
    if str_eq a (codes "pip") then codes "uv pip " ++ b else codes "uv " ++ a

-- The error text of runUVStreamed where uv's exit is an error: the tail, or else the wait error.
unfoldable pub uv_error : List Str → List Str → Str → Str
unfolding snapshot uv_cmd_label
uv_error args tail wait_err =
    uv_cmd_label args
    ++ codes ": "
    ++ (if is_empty (snapshot tail) then wait_err else snapshot tail)

-- The last n elements.
abbrev pub last : ℕ → List Str → List Str
last n xs = drop (length xs - n) xs

abbrev pub lines_of : List (ℤ × Str) → List Str
lines_of [] = []
lines_of ((now, line) ∷ rest) = line ∷ lines_of rest

add_last :
    (u : Unicode) (line : Str) (tail : List Str)
    → is_text u line ≡ true
    → add u line tail ≡ last max_lines (tail ++ (line ∷ []))
unfolding add
add_last u line tail e = elim (Bool-cases (ltb max_lines (length (tail ++ (line ∷ []))))) [
  | inl m ↦ rw (e, m) refl
  | inr m ↦ rw (e, m) (ap (λ k. drop k (tail ++ (line ∷ []))) (sym (short m)))
]
  where
    short :
        ltb max_lines (length (tail ++ (line ∷ []))) ≡ false
        → length (tail ++ (line ∷ [])) - max_lines ≡ 0
    short m = ground (arith, m)

drop-nil : (i : ℕ) → drop {A = Str} i [] ≡ []
drop-nil zero = refl
drop-nil (suc i) = refl

suc_add : (k i : ℕ) → suc k + i ≡ suc (k + i)
suc_add k i = omega arith

drop-drop : (i k : ℕ) (zs : List Str) → drop i (drop k zs) ≡ drop (k + i) zs
drop-drop i zero zs = ap (λ j. drop j zs) (omega arith)
drop-drop i (suc k) [] = drop-nil i ∙ sym (drop-nil (suc k + i))
drop-drop i (suc k) (z ∷ zs) = drop-drop i k zs ∙ ap (λ j. drop j (z ∷ zs)) (sym (suc_add k i))

no_room : (k : ℕ) → suc k ≤ 0 → ⊥
no_room k h = omega (arith, h)

drop-append : (k : ℕ) (xs ys : List Str) → k ≤ length xs → drop k (xs ++ ys) ≡ drop k xs ++ ys
drop-append zero xs ys h = refl
drop-append (suc k) [] ys h = absurd (no_room k h)
drop-append (suc k) (x ∷ xs) ys h = drop-append k xs ys (omega (arith, h))

length-drop : (k : ℕ) (xs : List Str) → length (drop k xs) ≡ length xs - k
length-drop zero xs = omega arith
length-drop (suc k) [] = omega arith
length-drop (suc k) (x ∷ xs) = length-drop k xs ∙ omega arith

last-append : (n : ℕ) (xs ys : List Str) → last n (last n xs ++ ys) ≡ last n (xs ++ ys)
last-append n xs ys =
    let k = length xs - n in
    let m = length (drop k xs ++ ys) in
    ap (λ zs. drop (m - n) zs) (sym (drop-append k xs ys (omega arith)))
    ∙ drop-drop (m - n) k (xs ++ ys)
    ∙ ap (λ j. drop j (xs ++ ys))
        (omega (arith, length-append (drop k xs) ys, length-drop k xs, length-append xs ys))

short_tail : (tail : List Str) → length tail ≤ max_lines → length tail - max_lines ≡ 0
short_tail tail h = omega (arith, h)

add_blank :
    (u : Unicode) (line : Str) (tail : List Str) → is_text u line ≡ false → add u line tail ≡ tail
unfolding add
add_blank u line tail e = rw e refl

length-add :
    (u : Unicode) (line : Str) (tail : List Str)
    → length tail ≤ max_lines
    → length (add u line tail) ≤ max_lines
length-add u line tail h = elim (Bool-cases (is_text u line)) [
  | inl e ↦
      rw (add_last u line tail e) (
        omega (arith, length-drop (length (tail ++ (line ∷ [])) - max_lines) (tail ++ (line ∷ []))))
  | inr e ↦ rw (add_blank u line tail e) h
]

tail_from :
    (u : Unicode) (task : ℕ) (level : Str) (es : List (ℤ × Str)) (tail : List Str)
    (out : List WorkerMsg)
    → length tail ≤ max_lines
    → (stream_uv u task level es (tail, out)).0
      ≡ last max_lines (tail ++ keep (is_text u) (lines_of es))
unfolding stream_uv
tail_from u task level [] tail out h =
    ap (λ k. drop k tail) (sym (short_tail tail h)) ∙ ap (last max_lines) (sym (append-nil tail))
tail_from u task level ((now, line) ∷ rest) tail out h = elim (Bool-cases (is_text u line)) [
  | inl e ↦
      tail_from u task level rest (add u line tail) _ (length-add u line tail h)
      ∙ ap (λ t. last max_lines (t ++ keep (is_text u) (lines_of rest))) (add_last u line tail e)
      ∙ last-append max_lines (tail ++ (line ∷ [])) (keep (is_text u) (lines_of rest))
      ∙ ap (last max_lines) (append_assoc tail (line ∷ []) (keep (is_text u) (lines_of rest)))
      ∙ rw e refl
  | inr e ↦
      tail_from u task level rest (add u line tail) _ (length-add u line tail h)
      ∙ ap (λ t. last max_lines (t ++ keep (is_text u) (lines_of rest))) (add_blank u line tail e)
      ∙ rw e refl
]

-- The tail that an install leaves is the last five of its lines that are not blank, in order.
pub stream_uv_tail :
    (u : Unicode) (task : ℕ) (level : Str) (es : List (ℤ × Str)) (out : List WorkerMsg)
    → (stream_uv u task level es ([], out)).0 ≡ last 5 (keep (is_text u) (lines_of es))
stream_uv_tail u task level es out = tail_from u task level es [] out (omega arith)
