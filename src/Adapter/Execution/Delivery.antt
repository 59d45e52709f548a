-- ===== src/Adapter/Execution/Delivery.antt =====
-- What a subscriber of src/codex_responses_adapter/store.py receives.
use litellm_gateway.Prelude.{
  ℕ, zero, suc, ◌≤◌, ◌<◌, ◌≡◌, refl, ap, ◌∙◌, Bool, true, false, not, Option, none, some, List, [],
  ◌∷◌, ◌++◌, map, if◌then◌else◌, nat_eq, length, keep, append_assoc, append-nil, length-append, All,
  All-keep, All-imp, arith,
}
use litellm_gateway.Prelude.Json.{Json}
use litellm_gateway.Adapter.Execution.{
  Execution, start, put_each, put_events, subscribe, unsubscribe, publish, finish,
}
use litellm_gateway.Adapter.Execution.Queues.{
  content, times, copies, length-put_each, length-put_events, content-put_each, content-append,
  content_last,
}

-- The steps that other tasks may take.
pub data Action : Type 0 where
  publishes : List Json → Action
  finishes : Action
  subscribes : Action
  unsubscribes : ℕ → Action

unfoldable pub act : Action → Execution → Execution
act (publishes es) s = publish es s
act finishes s = finish s
act subscribes s = (subscribe s).1
act (unsubscribes q) s = unsubscribe q s

unfoldable pub act_all : List Action → Execution → Execution
act_all [] s = s
act_all (a ∷ rest) s = act_all rest (act a s)

-- What a subscribed queue is to hear: every event until the end, and then one `None`.
unfoldable pub heard : ℕ → List Action → List (Option Json)
heard q [] = []
heard q (publishes es ∷ rest) = map some es ++ heard q rest
heard q (finishes ∷ rest) = none ∷ []
heard q (subscribes ∷ rest) = heard q rest
heard q (unsubscribes p ∷ rest) = if nat_eq p q then [] else heard q rest

-- Every subscriber names a queue.
abbrev pub Known : Execution → Type 0
Known s = All (λ p. p < length s.queues) s.subscribers

subscribe-Known : (s : Execution) → Known s → Known (subscribe s).1
unfolding subscribe
subscribe-Known s h = go s.terminal
  where
    wider : (c : List (Option Json)) → All (λ p. p < length (s.queues ++ c ∷ [])) s.subscribers
    wider c =
        All-imp (λ p. p < length s.queues) (λ p. p < length (s.queues ++ c ∷ [])) s.subscribers
          (λ p l. omega (arith, length-append s.queues (c ∷ []))) h

    go :
        (b : Bool)
        → Known
            (if◌then◌else◌ {A = ℕ × Execution} b
              (length s.queues, record s { queues = s.queues ++ (none ∷ []) ∷ [] })
              (
                length s.queues,
                record s {
                  queues = s.queues ++ [] ∷ [];
                  subscribers = length s.queues ∷ s.subscribers;
                },
              )).1
    go true = wider (none ∷ [])
    go false = (omega (arith, length-append s.queues ([] ∷ [])), wider [])

act-Known : (a : Action) (s : Execution) → Known s → Known (act a s)
unfolding act publish finish unsubscribe
act-Known (publishes es) s h = rw (length-put_events s.subscribers es s.queues) h
act-Known finishes s h = tt
act-Known subscribes s h = subscribe-Known s h
act-Known (unsubscribes p) s h =
    All-keep (λ r. r < length s.queues) (λ r. r < length s.queues) (λ r. not (nat_eq r p))
      s.subscribers (λ r _ l. l) h

act_all-Known : (rest : List Action) (s : Execution) → Known s → Known (act_all rest s)
unfolding act_all
act_all-Known [] s h = h
act_all-Known (a ∷ rest) s h = act_all-Known rest (act a s) (act-Known a s h)

module _ (q : ℕ) where
  -- The queue is there; it is subscribed at most once.
  pub record IsFair (s : Execution) : Type 0 where
    pub there : q < length s.queues
    pub once : times q s.subscribers ≤ 1

  abbrev pub to_hear : Execution → List Action → List (Option Json)
  to_hear s rest = if nat_eq (times q s.subscribers) 0 then [] else heard q rest

  copies_once : (n : ℕ) (x : Option Json) → n ≤ 1 → copies n x ≡ (if nat_eq n 0 then [] else x ∷ [])
  copies_once zero x h = refl
  copies_once (suc zero) x h = refl
  copies_once (suc (suc n)) x h = absurd (omega arith)

  content-put_once :
      (subs : List ℕ) (x : Option Json) (qs : List (List (Option Json)))
      → q < length qs
      → times q subs ≤ 1
      → content (put_each subs x qs) q
        ≡ content qs q ++ (if nat_eq (times q subs) 0 then [] else x ∷ [])
  content-put_once subs x qs h once =
      content-put_each subs q x qs h
      ∙ ap (λ ys. content qs q ++ ys) (copies_once (times q subs) x once)

  content-put_events :
      (subs : List ℕ) (es : List Json) (qs : List (List (Option Json)))
      → q < length qs
      → times q subs ≤ 1
      → content (put_events subs es qs) q
        ≡ content qs q ++ (if nat_eq (times q subs) 0 then [] else map some es)
  unfolding put_events
  content-put_events subs [] qs h once = ground (arith, append-nil (content qs q))
  content-put_events subs (e ∷ es) qs h once = ground (
    arith,
    append-nil (content qs q),
    append_assoc (content qs q) (some e ∷ []) (map some es),
    content-put_once subs (some e) qs h once,
    length-put_each subs (some e) qs,
    content-put_events subs es (put_each subs (some e) qs),
  )

  times-keep :
      (p : ℕ) (subs : List ℕ)
      → times q (keep (λ r. not (nat_eq r p)) subs) ≡ (if nat_eq p q then 0 else times q subs)
  unfolding times
  times-keep p [] = ground arith
  times-keep p (r ∷ subs) = ground (arith, times-keep p subs)

  act-IsFair : (a : Action) (s : Execution) → IsFair s → IsFair (act a s)
  unfolding act publish finish subscribe unsubscribe times
  act-IsFair (publishes es) s f = record {
    there = omega (arith, f.there, length-put_events s.subscribers es s.queues);
    once = f.once;
  }
  act-IsFair finishes s f = record {
    there = omega (arith, f.there, length-put_each s.subscribers none s.queues);
    once = omega arith;
  }
  act-IsFair subscribes s f = record {
    there = ground (
      arith,
      f.there,
      length-append s.queues ((none ∷ []) ∷ []),
      length-append s.queues ([] ∷ []),
    );
    once = ground (arith, f.there, f.once);
  }
  act-IsFair (unsubscribes p) s f = record {
    there = f.there;
    once = ground (arith, times-keep p s.subscribers, f.once);
  }

  -- One step, and what is left to hear.
  act-to_hear :
      (a : Action) (s : Execution) (rest : List Action)
      → IsFair s
      → content (act a s).queues q ++ to_hear (act a s) rest
        ≡ content s.queues q ++ to_hear s (a ∷ rest)
  unfolding act publish finish subscribe unsubscribe times heard
  act-to_hear (publishes es) s rest f = ground (
    arith,
    append-nil (content s.queues q),
    append_assoc (content s.queues q) (map some es) (heard q rest),
    content-put_events s.subscribers es s.queues f.there f.once,
  )
  act-to_hear finishes s rest f = ground (
    arith,
    append-nil (content s.queues q),
    append-nil (content s.queues q ++ none ∷ []),
    content-put_once s.subscribers none s.queues f.there f.once,
  )
  act-to_hear subscribes s rest f = ground (
    arith,
    f.there,
    content-append s.queues (none ∷ []) q f.there,
    content-append s.queues [] q f.there,
  )
  act-to_hear (unsubscribes p) s rest f = ground (arith, times-keep p s.subscribers)

  act_all-to_hear :
      (rest : List Action) (s : Execution)
      → IsFair s
      → content (act_all rest s).queues q ≡ content s.queues q ++ to_hear s rest
  unfolding act_all heard
  act_all-to_hear [] s f = ground (arith, append-nil (content s.queues q))
  act_all-to_hear (a ∷ rest) s f =
      act_all-to_hear rest (act a s) (act-IsFair a s f) ∙ act-to_hear a s rest f

  times_above : (ps : List ℕ) → All (λ p. p < q) ps → times q ps ≡ 0
  unfolding times
  times_above [] h = refl
  times_above (p ∷ ps) h = ground (arith, times_above ps h.1, h.0)

subscribed-IsFair : (s : Execution) → Known s → IsFair (length s.queues) (subscribe s).1
unfolding subscribe times
subscribed-IsFair s h = record {
  there =
      ground (arith, length-append s.queues ((none ∷ []) ∷ []), length-append s.queues ([] ∷ []));
  once = ground (arith, times_above (length s.queues) s.subscribers h);
}

subscribed :
    (s : Execution)
    → Known s
    → (after : List Action)
    → content (act_all after (subscribe s).1).queues (subscribe s).0
      ≡ (if s.terminal then none ∷ [] else heard (subscribe s).0 after)
unfolding subscribe times
subscribed s h after = ground (
  arith,
  content_last s.queues (none ∷ []),
  content_last s.queues [],
  times_above (length s.queues) s.subscribers h,
  length-append s.queues ((none ∷ []) ∷ []),
  length-append s.queues ([] ∷ []),
  act_all-to_hear (length s.queues) after (subscribe s).1 (subscribed-IsFair s h),
)

-- A queue that is handed out after any history, and then left to any other steps, holds what its
-- subscriber is to hear and no more: one `None` if the execution had ended, and otherwise every
-- event published from then on, in order, up to the end and one `None`, or up to its unsubscribing.
pub delivery_exact :
    (before after : List Action)
    → let s = act_all before start in
      let (q, t) = subscribe s in
      content (act_all after t).queues q ≡ (if s.terminal then none ∷ [] else heard q after)
unfolding start
delivery_exact before after =
    subscribed (act_all before start) (act_all-Known before start tt) after
