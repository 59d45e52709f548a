-- ===== src/Worker/EventLog/Reads.antt =====
-- What a reader of src/sandbox_worker/event_log.py gets, against the whole history of the log.
use Prim.Native.Nat.{max}
use mathlib.Core.Path.{subst}
use native.Mathlib.Nat.{suc-add}
use litellm_gateway.Prelude.{
  ℕ, zero, suc, ◌+◌, ◌-◌, ◌≤◌, ◌≡◌, refl, sym, ap, ◌∙◌, String, false, List, [], ◌∷◌, ◌++◌, ltb,
  ltb→lt, length, drop, keep, length-append, length-drop, arith, Bool-cases, inl, inr,
}
use litellm_gateway.Prelude.Json.{Json}
use litellm_gateway.Worker.EventLog.{
  AgentEvent, EventLog, new, publish, close, read, Cursor, start, at, is_after, push,
}

module _ {ℓ} {A : Type ℓ} where
  pub drop-append : (k : ℕ) (xs ys : List A) → k ≤ length xs → drop k (xs ++ ys) ≡ drop k xs ++ ys
  drop-append zero xs ys h = refl
  drop-append (suc k) [] ys h = absurd (omega arith)
  drop-append (suc k) (x ∷ xs) ys h = drop-append k xs ys (omega arith)

  pub drop-nil : (n : ℕ) → ◌≡◌ {A = List A} (drop n []) []
  drop-nil zero = refl
  drop-nil (suc n) = refl

  pub drop-drop : (j k : ℕ) (xs : List A) → drop j (drop k xs) ≡ drop (k + j) xs
  drop-drop j zero xs = ap (λ n. drop n xs) (omega arith)
  drop-drop j (suc k) [] = drop-nil j ∙ sym (drop-nil (suc k + j))
  drop-drop j (suc k) (x ∷ xs) = drop-drop j k xs ∙ ap (λ n. drop n (x ∷ xs)) (sym (suc-add k j))

-- The ids count on from `i`.
abbrev pub Numbered : ℕ → List AgentEvent → Type 0
Numbered i [] = Unit {0}
Numbered i (e ∷ es) = (e.id ≡ i) × Numbered (suc i) es

pub Numbered-drop : (k i : ℕ) (es : List AgentEvent) → Numbered i es → Numbered (i + k) (drop k es)
Numbered-drop zero i es h = subst (λ n. Numbered n es) (omega arith) h
Numbered-drop (suc k) i [] h = tt
Numbered-drop (suc k) i (e ∷ es) h =
    subst (λ n. Numbered n (drop k es)) (omega arith) (Numbered-drop k (suc i) es h.1)

Numbered-append :
    (i : ℕ) (es : List AgentEvent) (e : AgentEvent)
    → Numbered i es
    → e.id ≡ i + length es
    → Numbered i (es ++ e ∷ [])
Numbered-append i [] e h p = (omega arith, tt)
Numbered-append i (x ∷ es) e h p = (h.0, Numbered-append (suc i) es e h.1 (omega arith))

-- The first id that a cursor has not seen.
abbrev pub next_after : Cursor → ℕ
next_after start = 0
next_after (at n) = suc n

keep-Numbered :
    (c : Cursor) (i : ℕ) (es : List AgentEvent)
    → Numbered i es
    → keep (is_after c) es ≡ drop (next_after c - i) es
keep-Numbered c i [] h = sym (drop-nil (next_after c - i))
keep-Numbered start i (e ∷ es) h =
    let none_seen : (n : ℕ) → 0 - n ≡ 0 = λ n. omega arith in
    rw (none_seen i)
      (ap (◌∷◌ e) (keep-Numbered start (suc i) es h.1 ∙ ap (λ n. drop n es) (none_seen (suc i))))
keep-Numbered (at n) i (e ∷ es) h = elim (Bool-cases (ltb n e.id)) [
  | inl new ↦
      let p : suc n - i ≡ 0 = omega (arith, ltb→lt n e.id new) in
      let q : suc n - suc i ≡ 0 = omega (arith, ltb→lt n e.id new) in
      rw (new, p) (ap (◌∷◌ e) (keep-Numbered (at n) (suc i) es h.1 ∙ ap (λ m. drop m es) q))
  | inr old ↦
      let p : suc n - i ≡ suc (suc n - suc i) = ground arith in
      rw (old, p) (keep-Numbered (at n) (suc i) es h.1)
]

-- The log against all that was ever published, oldest first: it holds the last `max_history`.
pub record Holds (all : List AgentEvent) (l : EventLog) : Type 0 where
  pub retained : l.events ≡ drop (length all - l.max_history) all
  pub numbered : Numbered 0 all
  pub counted : l.next_id ≡ length all

pub new-Holds : (max_history : ℕ) → Holds [] (new max_history)
unfolding new
new-Holds max_history = record {
  retained = sym (drop-nil (0 - max_history));
  numbered = tt;
  counted = refl;
}

not_ltb : (a b : ℕ) → ltb a b ≡ false → b ≤ a
not_ltb a b h = ground arith

push-drop :
    (m : ℕ) (all : List AgentEvent) (e : AgentEvent)
    → push m (drop (length all - m) all) e ≡ drop (length (all ++ e ∷ []) - m) (all ++ e ∷ [])
unfolding push
push-drop m all e =
    let k = length all - m in
    let grown : drop k all ++ e ∷ [] ≡ drop k (all ++ e ∷ []) =
      sym (drop-append k all (e ∷ []) (omega arith)) in
    elim (Bool-cases (ltb m (length (drop k all ++ e ∷ [])))) [
      | inl full ↦
          let p : k + 1 ≡ length (all ++ e ∷ []) - m = omega (
            arith,
            ltb→lt m (length (drop k all ++ e ∷ [])) full,
            length-append (drop k all) (e ∷ []),
            length-drop k all,
            length-append all (e ∷ []),
          ) in
          rw full
            (ap (drop 1) grown ∙ drop-drop 1 k (all ++ e ∷ []) ∙ ap (λ n. drop n (all ++ e ∷ [])) p)
      | inr room ↦
          let p : k ≡ length (all ++ e ∷ []) - m = omega (
            arith,
            not_ltb m (length (drop k all ++ e ∷ [])) room,
            length-append (drop k all) (e ∷ []),
            length-drop k all,
            length-append all (e ∷ []),
          ) in
          rw room (grown ∙ ap (λ n. drop n (all ++ e ∷ [])) p)
    ]

-- What was published last.
abbrev pub published : String → Json → EventLog → AgentEvent
published type payload l = record { id = l.next_id; type = type; payload = payload }

pub publish-Holds :
    (type : String) (payload : Json) (all : List AgentEvent) (l : EventLog)
    → Holds all l
    → Holds (all ++ published type payload l ∷ []) (publish type payload l)
unfolding publish
publish-Holds type payload all l h = record {
  retained =
      ap (λ es. push l.max_history es (published type payload l)) h.retained
      ∙ push-drop l.max_history all (published type payload l);
  numbered = Numbered-append 0 all (published type payload l) h.numbered (omega (arith, h.counted));
  counted = omega (arith, h.counted, length-append all (published type payload l ∷ []));
}

pub close-Holds : (all : List AgentEvent) (l : EventLog) → Holds all l → Holds all (close l)
unfolding close
close-Holds all l h = record { retained = h.retained; numbered = h.numbered; counted = h.counted }

-- A read returns all that was published after the cursor and is still retained, in order: the events
-- from the id after the cursor, or from the oldest of the last `max_history`, whichever is later.
pub read_exact :
    (after : Cursor) (all : List AgentEvent) (l : EventLog)
    → Holds all l
    → read after l ≡ (drop (max (next_after after) (length all - l.max_history)) all, l.closed)
unfolding read
read_exact after all l h =
    let k = length all - l.max_history in
    let rest : keep (is_after after) (drop k all) ≡ drop (next_after after - (0 + k)) (drop k all) =
      keep-Numbered after (0 + k) (drop k all) (Numbered-drop k 0 all h.numbered) in
    let p : k + (next_after after - (0 + k)) ≡ max (next_after after) k = omega arith in
    ap (λ es. (es, l.closed))
      (ap (keep (is_after after)) h.retained
        ∙ rest
        ∙ drop-drop (next_after after - (0 + k)) k all
        ∙ ap (λ n. drop n all) p)
