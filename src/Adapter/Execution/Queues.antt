-- ===== src/Adapter/Execution/Queues.antt =====
-- What the queues of src/codex_responses_adapter/store.py hold after puts.
use litellm_gateway.Prelude.{
  ℕ, zero, suc, ◌<◌, ◌≡◌, refl, sym, ap, ◌∙◌, Option, some, List, [], ◌∷◌, ◌++◌, if◌then◌else◌,
  nat_eq, length, append_assoc, append-nil, arith, Bool-cases, inl, inr,
}
use litellm_gateway.Prelude.Json.{Json}
use litellm_gateway.Adapter.Execution.{put_nowait, put_each, put_events}

-- What a queue holds.
unfoldable pub content : List (List (Option Json)) → ℕ → List (Option Json)
content [] q = []
content (c ∷ cs) zero = c
content (c ∷ cs) (suc q) = content cs q

unfoldable pub times : ℕ → List ℕ → ℕ
times q [] = 0
times q (p ∷ ps) = if nat_eq p q then suc (times q ps) else times q ps

abbrev pub copies : ℕ → Option Json → List (Option Json)
copies zero x = []
copies (suc n) x = x ∷ copies n x

pub length-put_nowait :
    (q : ℕ) (x : Option Json) (qs : List (List (Option Json)))
    → length (put_nowait q x qs) ≡ length qs
unfolding put_nowait
length-put_nowait q x [] = refl
length-put_nowait zero x (c ∷ cs) = refl
length-put_nowait (suc q) x (c ∷ cs) = ap suc (length-put_nowait q x cs)

pub length-put_each :
    (subs : List ℕ) (x : Option Json) (qs : List (List (Option Json)))
    → length (put_each subs x qs) ≡ length qs
unfolding put_each
length-put_each [] x qs = refl
length-put_each (q ∷ subs) x qs =
    length-put_each subs x (put_nowait q x qs) ∙ length-put_nowait q x qs

pub length-put_events :
    (subs : List ℕ) (es : List Json) (qs : List (List (Option Json)))
    → length (put_events subs es qs) ≡ length qs
unfolding put_events
length-put_events subs [] qs = refl
length-put_events subs (e ∷ es) qs =
    length-put_events subs es (put_each subs (some e) qs) ∙ length-put_each subs (some e) qs

pub content-put_nowait :
    (p q : ℕ) (x : Option Json) (qs : List (List (Option Json)))
    → q < length qs
    → content (put_nowait p x qs) q ≡ (if nat_eq p q then content qs q ++ x ∷ [] else content qs q)
unfolding content put_nowait
content-put_nowait p q x [] h = absurd (omega arith)
content-put_nowait zero zero x (c ∷ cs) h = refl
content-put_nowait zero (suc q) x (c ∷ cs) h = ground arith
content-put_nowait (suc p) zero x (c ∷ cs) h = ground arith
content-put_nowait (suc p) (suc q) x (c ∷ cs) h = ground (arith, content-put_nowait p q x cs)

pub content-put_each :
    (subs : List ℕ) (q : ℕ) (x : Option Json) (qs : List (List (Option Json)))
    → q < length qs
    → content (put_each subs x qs) q ≡ content qs q ++ copies (times q subs) x
unfolding put_each times
content-put_each [] q x qs h = sym (append-nil (content qs q))
content-put_each (p ∷ subs) q x qs h =
    content-put_each subs q x (put_nowait p x qs) (omega (arith, length-put_nowait p x qs))
    ∙ elim (Bool-cases (nat_eq p q)) [
      | inl hit ↦
          rw (hit, content-put_nowait p q x qs h, hit)
            (append_assoc (content qs q) (x ∷ []) (copies (times q subs) x))
      | inr miss ↦ rw (miss, content-put_nowait p q x qs h, miss) refl
    ]

pub content-append :
    (qs : List (List (Option Json))) (c : List (Option Json)) (q : ℕ)
    → q < length qs
    → content (qs ++ c ∷ []) q ≡ content qs q
unfolding content
content-append [] c q h = absurd (omega arith)
content-append (d ∷ qs) c zero h = refl
content-append (d ∷ qs) c (suc q) h = content-append qs c q (omega arith)

pub content_last :
    (qs : List (List (Option Json))) (c : List (Option Json))
    → content (qs ++ c ∷ []) (length qs) ≡ c
unfolding content
content_last [] c = refl
content_last (d ∷ qs) c = content_last qs c
