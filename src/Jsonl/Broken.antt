-- ===== src/Jsonl/Broken.antt =====
-- A record whose line holds a break of `str.splitlines` other than a line feed: `_append_jsonl` of
-- src/missionforge/interaction.py writes it with `ensure_ascii=False`, and `_read_jsonl` splits it.
use mathlib.Core.List.{append_assoc}
use missionforge.Common.{
  ℕ, ◌≡◌, refl, sym, ap, subst, ◌∙◌, true, false, Option, none, some, inl, inr, List, [], ◌∷◌, ◌++◌,
  any, is_empty, ◌==◌, Bool-cases,
}
use missionforge.Text.{Text, strip}
use missionforge.Outcome.{Outcome, ok, raise, Error, json_decode_error, ◌>>=◌, >>=-eq-ok}
use missionforge.Value.{dict, Fields}
use missionforge.Jsonl.{
  Codec, Root, resolve_ref, is_break, splitlines, as_object, parse_lines, read_jsonl, appended,
  append_text, append_jsonl,
}
use missionforge.Jsonl.Append.{IsLog, splitlines-log}
use missionforge.Jsonl.Records.{
  LogAt, Log, parse, append_jsonl-out, elim_read, file_read, file-appended,
}

-- A code point at which a line ends by itself.
pub record Splits (c : ℕ) : Type 0 where
  pub breaks : is_break c ≡ true
  pub no_return : (c == 13) ≡ false

-- The line of a record begins with a text that ends at such a code point and is no JSON.
pub record Broken (json : Codec) (payload : Fields) : Type 0 where
  pub head : Text
  pub rest : Text
  pub at : ℕ
  pub splits : Splits at
  pub line : json.dumps (dict payload) ≡ head ++ at ∷ rest
  pub unbroken : any is_break head ≡ false
  pub filled : is_empty (strip head) ≡ false
  pub invalid : json.loads head ≡ none

splitlines_break :
    (c : ℕ) (l t : Text)
    → Splits c
    → any is_break l ≡ false
    → splitlines (l ++ c ∷ t) ≡ l ∷ splitlines t
unfolding splitlines
splitlines_break c [] t s h = rw (s.breaks, s.no_return) refl
splitlines_break c (d ∷ l) t s h = elim (Bool-cases (is_break d)) [
  | inl y ↦ let k : true ≡ false = rw y at h in cc
  | inr n ↦ let k : any is_break l ≡ false = rw n at h in rw (n, splitlines_break c l t s k) refl
]

-- Behind a log, the broken line has its head for a line of its own.
splitlines-broken :
    (log : Text) (c : ℕ) (l t : Text)
    → IsLog log
    → Splits c
    → any is_break l ≡ false
    → splitlines (log ++ (l ++ c ∷ t)) ≡ splitlines log ++ l ∷ splitlines t
unfolding splitlines
splitlines-broken log c l t (inl e) s h =
    subst (λ u. splitlines (u ++ (l ++ c ∷ t)) ≡ splitlines u ++ l ∷ splitlines t) (sym e)
      (splitlines_break c l t s h)
splitlines-broken log c l t (inr (r, e)) s h =
    subst (λ u. splitlines (u ++ (l ++ c ∷ t)) ≡ splitlines u ++ l ∷ splitlines t) (sym e)
      (ap splitlines (append_assoc r (10 ∷ []) (l ++ c ∷ t))
        ∙ splitlines-log r (l ++ c ∷ t)
        ∙ ap (λ ls. splitlines (r ++ 10 ∷ []) ++ ls) (splitlines_break c l t s h))

module _ {ℓ} {A : Type ℓ} (json : Codec) (bad : Error) (parse : Fields → Outcome A) where
  parse_lines-broken :
      (ls : List Text) (l : Text) (more : List Text) (old : List A)
      → parse_lines json bad parse ls ≡ ok old
      → is_empty (strip l) ≡ false
      → json.loads l ≡ none
      → parse_lines json bad parse (ls ++ l ∷ more) ≡ raise bad
  unfolding parse_lines
  parse_lines-broken [] l more old h b d = rw (b, d) refl
  parse_lines-broken (k ∷ ls) l more old h b d = elim (Bool-cases (is_empty (strip k))) [
    | inl y ↦
        let h' : parse_lines json bad parse ls ≡ ok old = rw y at h in
        rw y (parse_lines-broken ls l more old h' b d)
    | inr n ↦
        let h' : (as_object (json.loads k) bad >>= λ gs.
        parse gs >>= λ z. parse_lines json bad parse ls >>= λ rest. ok (z ∷ rest))
            ≡ ok old =
          rw n at h in
        let (gs, e1, h1) =
          >>=-eq-ok (as_object (json.loads k) bad)
            (λ gs. parse gs >>= λ z. parse_lines json bad parse ls >>= λ rest. ok (z ∷ rest)) h' in
        let (z, e2, h2) =
          >>=-eq-ok (parse gs) (λ z. parse_lines json bad parse ls >>= λ rest. ok (z ∷ rest)) h1 in
        let (rest, e3, h3) = >>=-eq-ok (parse_lines json bad parse ls) (λ rest. ok (z ∷ rest)) h2 in
        rw (n, e1, e2, parse_lines-broken ls l more rest e3 b d) refl
  ]

-- The text of a file with the broken line behind a log.
file-Broken :
    (json : Codec) (file : Option Text) (payload : Fields) (items : List Fields)
    → Broken json payload
    → LogAt file
    → (elim file [ none ↦ ok [] | some s ↦ parse json s ]) ≡ ok items
    → parse json (appended file (json.dumps (dict payload) ++ 10 ∷ [])) ≡ raise json_decode_error
unfolding splitlines parse_lines
file-Broken json none payload items b log h =
    rw (b.line, append_assoc b.head (b.at ∷ b.rest) (10 ∷ []))
      (ap (parse_lines json json_decode_error (λ gs. ok gs))
          (splitlines_break b.at b.head (b.rest ++ 10 ∷ []) b.splits b.unbroken)
        ∙ parse_lines-broken json json_decode_error (λ gs. ok gs) [] b.head
            (splitlines (b.rest ++ 10 ∷ [])) [] refl b.filled b.invalid)
file-Broken json (some s) payload items b log h =
    rw (b.line, append_assoc b.head (b.at ∷ b.rest) (10 ∷ []))
      (ap (parse_lines json json_decode_error (λ gs. ok gs))
          (splitlines-broken s b.at b.head (b.rest ++ 10 ∷ []) log b.splits b.unbroken)
        ∙ parse_lines-broken json json_decode_error (λ gs. ok gs) (splitlines s) b.head
            (splitlines (b.rest ++ 10 ∷ [])) items h b.filled b.invalid)

-- After a broken record was appended to a readable log, the log cannot be read.
pub append_jsonl-Broken :
    (json : Codec) (root after : Root) (ref : Text) (payload : Fields) (items : List Fields)
    → Log json root ref items
    → Broken json payload
    → append_jsonl json root ref payload ≡ ok after
    → read_jsonl json after ref ≡ raise json_decode_error
unfolding append_text resolve_ref
append_jsonl-Broken json root after ref payload items log broken h =
    let line : Text = json.dumps (dict payload) ++ 10 ∷ [] in
    let new : Root = append_text root log.path line in
    let here = append_jsonl-out json root after ref log.path payload log.resolved h in
    let before = sym (elim_read json root ref log.path log.resolved) ∙ log.read in
    let dir : resolve_ref new ref ≡ ok log.path = log.resolved in
    subst (λ r. read_jsonl json r ref ≡ raise json_decode_error) here
      (file_read json new ref log.path (appended (root.file log.path) line) dir
          (file-appended root log.path line)
        ∙ file-Broken json (root.file log.path) payload items broken log.whole before)
