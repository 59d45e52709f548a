-- ===== src/Adapter/Builder/Runs.antt =====
-- How the methods of `ResponsesEventBuilder` (src/codex_responses_adapter/events.py) are put together:
-- they return, keep the record sound, and number their events on.
use mathlib.Core.Path.{subst}
use litellm_gateway.Prelude.{
  ℕ, suc, ◌+◌, ◌≡◌, refl, sym, ap, ◌∙◌, String, Bool, true, false, Option, none, some, List, [],
  ◌∷◌, ◌++◌, ◌==◌, ◌||◌, if◌then◌else◌, length, length-append, arith,
}
use litellm_gateway.Prelude.Json.{Json}
use litellm_gateway.Prelude.Raising.{Method, continue, ◌>>=◌, pure}
use litellm_gateway.Adapter.Response.{ResponseRecord}
use litellm_gateway.Adapter.Response.Sound.{IsSound, to_response-Keeps, Keeps}
use litellm_gateway.Adapter.Response.{to_response}
use litellm_gateway.Adapter.Calls.Ids.{Gives}
use litellm_gateway.Adapter.Builder.{
  Event, Builder, Emit, with_response, then_emit, assigning, ending, event, no_events, ◌⊕◌, choose,
  response_event,
}

-- The events count on from `n`.
abbrev pub Numbered : ℕ → List Event → Type 0
Numbered n [] = Unit {0}
Numbered n (e ∷ es) = (e.sequence_number ≡ n) × Numbered (suc n) es

abbrev pub is_terminal : String → Bool
is_terminal type =
    type == "response.completed" || type == "response.incomplete" || type == "response.failed"

-- How many events end the response.
abbrev pub endings : List Event → ℕ
endings [] = 0
endings (e ∷ es) = let rest = endings es in if is_terminal e.type then suc rest else rest

abbrev pub ended : Builder → ℕ
ended b = if b.terminal then 1 else 0

-- What holds of the events that lead from one state of the builder to another.
pub record Follows (b : Builder) (es : List Event) (t : Builder) : Type 0 where
  pub numbered : Numbered b.sequence_number es
  pub counted : t.sequence_number ≡ b.sequence_number + length es
  pub ends : ended b + endings es ≡ ended t

abbrev pub Outcome : Builder → Option (List Event) × Builder → Type 0
Outcome b (none, t) = ⊥
Outcome b (some es, t) = Follows b es t × IsSound t.response

-- A method that returns from every sound state that `P` holds of.
abbrev pub RunsIf : (Builder → Type 0) → Emit → Type 0
RunsIf P m = (b : Builder) → P b → IsSound b.response → Outcome b (m b)

-- A method that returns from every sound state, and does not end the response.
abbrev pub Open : Builder → Option (List Event) × Builder → Type 0
Open b (none, t) = ⊥
Open b (some es, t) = Follows b es t × (t.terminal ≡ b.terminal) × IsSound t.response

abbrev pub Runs : Emit → Type 0
Runs m = (b : Builder) → IsSound b.response → Open b (m b)

Numbered-append :
    (n : ℕ) (es fs : List Event)
    → Numbered n es
    → Numbered (n + length es) fs
    → Numbered n (es ++ fs)
Numbered-append n [] fs h k = subst (λ m. Numbered m fs) (omega arith) k
Numbered-append n (e ∷ es) fs h k =
    (h.0, Numbered-append (suc n) es fs h.1 (subst (λ m. Numbered m fs) (omega arith) k))

endings-append : (es fs : List Event) → endings (es ++ fs) ≡ endings es + endings fs
endings-append [] fs = omega arith
endings-append (e ∷ es) fs = ground (arith, endings-append es fs)

pub Follows-append :
    (b t u : Builder) (es fs : List Event)
    → Follows b es t
    → Follows t fs u
    → Follows b (es ++ fs) u
Follows-append b t u es fs f g = record {
  numbered =
      Numbered-append b.sequence_number es fs f.numbered
        (subst (λ m. Numbered m fs) f.counted g.numbered);
  counted = omega (arith, f.counted, g.counted, length-append es fs);
  ends = omega (arith, f.ends, g.ends, endings-append es fs);
}

-- A method that changes nothing which `Follows` reads.
pub Follows-nothing :
    (b t : Builder)
    → t.sequence_number ≡ b.sequence_number
    → t.terminal ≡ b.terminal
    → Follows b [] t
Follows-nothing b t p q = record {
  numbered = tt;
  counted = omega (arith, p);
  ends = ap (λ x. (if x then 1 else 0) + 0) (sym q) ∙ omega arith;
}

-- An outcome reads only the number and the flag of the state it starts from.
re-Follows :
    (b c t : Builder) (es : List Event)
    → c.sequence_number ≡ b.sequence_number
    → c.terminal ≡ b.terminal
    → Follows b es t
    → Follows c es t
re-Follows b c t es p q f = Follows-append c b t [] es (Follows-nothing c b (sym p) (sym q)) f

re-Open :
    (b c : Builder) (o : Option (List Event) × Builder)
    → c.sequence_number ≡ b.sequence_number
    → c.terminal ≡ b.terminal
    → Open b o
    → Open c o
re-Open b c (none, t) p q h = h
re-Open b c (some es, t) p q h = (re-Follows b c t es p q h.0, h.1 ∙ sym q, h.2)

re-Outcome :
    (b c : Builder) (o : Option (List Event) × Builder)
    → c.sequence_number ≡ b.sequence_number
    → c.terminal ≡ b.terminal
    → Outcome b o
    → Outcome c o
re-Outcome b c (none, t) p q h = h
re-Outcome b c (some es, t) p q h = (re-Follows b c t es p q h.0, h.1)

module _ (b t : Builder) (es : List Event) (f : Follows b es t) where
  second-Open :
      (o : Option (List Event) × Builder)
      → t.terminal ≡ b.terminal
      → Open t o
      → Open b (continue o.0 (λ second. pure (es ++ second)) o.1)
  second-Open (none, u) e h = absurd h
  second-Open (some fs, u) e h = (Follows-append b t u es fs f h.0, h.1 ∙ e, h.2)

  second-Outcome :
      (o : Option (List Event) × Builder)
      → Outcome t o
      → Outcome b (continue o.0 (λ second. pure (es ++ second)) o.1)
  second-Outcome (none, u) h = absurd h
  second-Outcome (some fs, u) h = (Follows-append b t u es fs f h.0, h.1)

module _ (m n : Emit) where
  ⊕-Open :
      (b : Builder) (o : Option (List Event) × Builder)
      → Open b o
      → Runs n
      → Open b (continue o.0 (λ first. n >>= λ second. pure (first ++ second)) o.1)
  ⊕-Open b (none, t) h k = absurd h
  ⊕-Open b (some es, t) h k = second-Open b t es h.0 (n t) h.1 (k t h.2)

  pub ⊕-Runs : Runs m → Runs n → Runs (m ⊕ n)
  unfolding ◌⊕◌
  ⊕-Runs h k b s = ⊕-Open b (m b) (h b s) k

  ⊕-Outcome :
      (b : Builder) (o : Option (List Event) × Builder)
      → b.terminal ≡ false
      → Open b o
      → RunsIf (λ t. t.terminal ≡ false) n
      → Outcome b (continue o.0 (λ first. n >>= λ second. pure (first ++ second)) o.1)
  ⊕-Outcome b (none, t) e h k = absurd h
  ⊕-Outcome b (some es, t) e h k = second-Outcome b t es h.0 (n t) (k t (h.1 ∙ e) h.2)

  pub ⊕-RunsIf :
      Runs m → RunsIf (λ t. t.terminal ≡ false) n → RunsIf (λ t. t.terminal ≡ false) (m ⊕ n)
  unfolding ◌⊕◌
  ⊕-RunsIf h k b e s = ⊕-Outcome b (m b) e (h b s) k

  pub choose-Runs : (test : Builder → Bool) → Runs m → Runs n → Runs (choose test m n)
  unfolding choose
  choose-Runs test h k b s = go (test b)
    where
      go : (x : Bool) → Open b (if x then m b else n b)
      go true = h b s
      go false = k b s

  pub if-Runs : (x : Bool) → Runs m → Runs n → Runs (if x then m else n)
  if-Runs true h k = h
  if-Runs false h k = k

pub no_events-Runs : Runs no_events
unfolding no_events
no_events-Runs b s = (Follows-nothing b b refl refl, refl, s)

pub event-Runs :
    (type : String) (payload : ResponseRecord → List (String × Json))
    → is_terminal type ≡ false
    → Runs (event type payload)
unfolding event
event-Runs type payload e b s =
    (record { numbered = (refl, tt); counted = omega arith; ends = rw e (omega arith) }, refl, s)

pub assigning-Runs :
    (f : ResponseRecord → ResponseRecord) (m : Emit)
    → ((r : ResponseRecord) → IsSound r → IsSound (f r))
    → Runs m
    → Runs (assigning f m)
unfolding assigning
assigning-Runs f m h k b s =
    re-Open (record b { response = f b.response }) b _ refl refl
      (k (record b { response = f b.response }) (h b.response s))

module _ {A : Type 0} (P : A → Type 0) where
  then_emit-Open :
      (b : Builder) (o : Option A × ResponseRecord) (k : A → Emit)
      → Gives P o
      → ((a : A) → P a → Runs (k a))
      → Open b (then_emit b o k)
  unfolding then_emit
  then_emit-Open b (none, r) k g h = absurd g
  then_emit-Open b (some a, r) k g h =
      re-Open (record b { response = r }) b _ refl refl (h a g.0 (record b { response = r }) g.1)

  pub with_response-Runs :
      (m : Method ResponseRecord A) (k : A → Emit)
      → ((r : ResponseRecord) → IsSound r → Gives P (m r))
      → ((a : A) → P a → Runs (k a))
      → Runs (with_response m k)
  unfolding with_response
  with_response-Runs m k g h b s = then_emit-Open b (m b.response) k (g b.response s) h

pub Keeps-Gives : {A : Type 0} (o : Option A × ResponseRecord) → Keeps o → Gives (λ _. Unit {0}) o
Keeps-Gives (none, r) h = h
Keeps-Gives (some a, r) h = (tt, h)

-- The event that ends the response.
then_end-Outcome :
    (type : String) (b : Builder) (o : Option Json × ResponseRecord)
    → is_terminal type ≡ true
    → b.terminal ≡ false
    → Keeps o
    → Outcome b (
        then_emit
          (record b { terminal = true })
          o
          (λ response. event type (λ r. ("response", response) ∷ [])))
unfolding then_emit event
then_end-Outcome type b (none, r) e f h = absurd h
then_end-Outcome type b (some json, r) e f h =
    (record { numbered = (refl, tt); counted = omega arith; ends = ground (arith, e, f) }, h)

pub ending-RunsIf :
    (type : String) (f : ResponseRecord → ResponseRecord)
    → is_terminal type ≡ true
    → ((r : ResponseRecord) → IsSound r → IsSound (f r))
    → RunsIf (λ b. b.terminal ≡ false) (assigning f (ending (response_event type)))
unfolding assigning ending response_event with_response
ending-RunsIf type f e h b q s =
    re-Outcome (record b { response = f b.response }) b _ refl refl
      (then_end-Outcome type (record b { response = f b.response }) (to_response (f b.response)) e q
        (to_response-Keeps (f b.response) (h b.response s)))
