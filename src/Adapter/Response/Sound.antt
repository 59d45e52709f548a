-- ===== src/Adapter/Response/Sound.antt =====
-- The output items of src/codex_responses_adapter/models.py and their indexes.
use Prim.Native.String.append.{cons}
use Prim.Native.String.compare.{cons-nil}
use litellm_gateway.Prelude.{
  ℕ, zero, suc, ◌≡◌, refl, sym, ap, ◌∙◌, String, Bool, true, false, Option, none, some, List, [],
  ◌∷◌, ◌++◌, ◌==◌, eq_iff, length, is_some, All, All-snoc, All-imp, arith, Bool-cases, inl, inr,
}
use litellm_gateway.Prelude.Json.{Json, str, Fields, get, dict}
use litellm_gateway.Prelude.Text.{concat}
use litellm_gateway.Prelude.Raising.{Method, continue, when}
use litellm_gateway.Adapter.Response.{
  ResponseRecord, CreateResponseRequest, create, find_index, item_at, replace_at, add_output_item,
  ensure_message, sync_message_item, message_item, to_response, named, start_message, started_index,
  place_item, ensured, response_json,
}

-- The id of the item at a place.
pub id_at : ℕ → List Fields → Option Json
id_at n [] = none
id_at zero (x ∷ xs) = some (get "id" x)
id_at (suc n) (x ∷ xs) = id_at n xs

abbrev pub IsPlaced : List Fields → String × ℕ → Type 0
IsPlaced items (k, n) = id_at n items ≡ some (str k)

-- Every index names an item of its id, and the message's id can be one.
pub record IsSound (r : ResponseRecord) : Type 0 where
  pub usable : (r.message_id == "") ≡ false
  pub indexed : All (IsPlaced r.output_items) r.output_indexes

-- A method that returns, and leaves the record sound.
abbrev pub Keeps : {A : Type 0} → Option A × ResponseRecord → Type 0
Keeps (none, r) = ⊥
Keeps (some a, r) = IsSound r

id_at-item_at :
    (n : ℕ) (xs : List Fields) (k : String)
    → id_at n xs ≡ some (str k)
    → is_some (item_at n xs) ≡ true
unfolding id_at item_at
id_at-item_at n [] k h = ground arith
id_at-item_at zero (x ∷ xs) k h = refl
id_at-item_at (suc n) (x ∷ xs) k h = id_at-item_at n xs k h

id_at-replace_at :
    (m n : ℕ) (item : Fields) (xs : List Fields) (k : String)
    → id_at n xs ≡ some (str k)
    → get "id" item ≡ str k
    → id_at m (replace_at n item xs) ≡ id_at m xs
unfolding id_at replace_at
id_at-replace_at m n item [] k h e = refl
id_at-replace_at zero zero item (x ∷ xs) k h e = ap some e ∙ sym h
id_at-replace_at (suc m) zero item (x ∷ xs) k h e = refl
id_at-replace_at zero (suc n) item (x ∷ xs) k h e = refl
id_at-replace_at (suc m) (suc n) item (x ∷ xs) k h e = id_at-replace_at m n item xs k h e

id_at-append :
    (m : ℕ) (xs ys : List Fields) (i : Json) → id_at m xs ≡ some i → id_at m (xs ++ ys) ≡ some i
unfolding id_at
id_at-append m [] ys i h = ground arith
id_at-append zero (x ∷ xs) ys i h = h
id_at-append (suc m) (x ∷ xs) ys i h = id_at-append m xs ys i h

id_at_last :
    (xs : List Fields) (item : Fields) → id_at (length xs) (xs ++ item ∷ []) ≡ some (get "id" item)
unfolding id_at
id_at_last [] item = refl
id_at_last (x ∷ xs) item = id_at_last xs item

find_index-IsPlaced :
    (k : String) (items : List Fields) (ixs : List (String × ℕ)) (n : ℕ)
    → All (IsPlaced items) ixs
    → find_index k ixs ≡ some n
    → id_at n items ≡ some (str k)
unfolding find_index
find_index-IsPlaced k items [] n h f = ground arith
find_index-IsPlaced k items ((l, m) ∷ ixs) n h f =
    ground (arith, h.0, eq_iff l k, find_index-IsPlaced k items ixs n h.1)

-- Placing an item under its own id.
place_item-Keeps :
    (k : String) (item : Fields) (r : ResponseRecord) (o : Option ℕ)
    → find_index k r.output_indexes ≡ o
    → get "id" item ≡ str k
    → IsSound r
    → Keeps (place_item k o item r)
unfolding place_item
place_item-Keeps k item r none f e s = record {
  usable = s.usable;
  indexed =
      All-snoc (IsPlaced (r.output_items ++ item ∷ [])) r.output_indexes (k, length r.output_items)
        (All-imp (IsPlaced r.output_items) (IsPlaced (r.output_items ++ item ∷ [])) r.output_indexes
          (λ (l, m) h. id_at-append m r.output_items (item ∷ []) (str l) h) s.indexed)
        (id_at_last r.output_items item ∙ ap some e);
}
place_item-Keeps k item r (some n) f e s =
    let there : id_at n r.output_items ≡ some (str k) =
      find_index-IsPlaced k r.output_items r.output_indexes n s.indexed f in
    rw (id_at-item_at n r.output_items k there) (record {
      usable = s.usable;
      indexed =
          All-imp (IsPlaced r.output_items) (IsPlaced (replace_at n item r.output_items))
            r.output_indexes (λ (l, m) h. id_at-replace_at m n item r.output_items k there e ∙ h)
            s.indexed;
    })

pub add_output_item-Keeps :
    (k : String) (item : Fields) (r : ResponseRecord)
    → get "id" item ≡ str k
    → (k == "") ≡ false
    → IsSound r
    → Keeps (add_output_item item r)
unfolding add_output_item
add_output_item-Keeps k item r e u s =
    rw (e, u) (place_item-Keeps k item r (find_index k r.output_indexes) refl e s)

pub id-message_item : (r : ResponseRecord) → get "id" (message_item r) ≡ str r.message_id
unfolding message_item get dict
id-message_item r = refl

module _ {A B : Type 0} where
  pub Keeps-continue :
      (o : Option A × ResponseRecord) (f : A → Method ResponseRecord B)
      → Keeps o
      → ((a : A) (r : ResponseRecord) → IsSound r → Keeps (f a r))
      → Keeps (continue o.0 f o.1)
  Keeps-continue (none, r) f h k = absurd h
  Keeps-continue (some a, r) f h k = k a r h

add_message-Keeps : (r : ResponseRecord) → IsSound r → Keeps (add_output_item (message_item r) r)
add_message-Keeps r s =
    add_output_item-Keeps r.message_id (message_item r) r (id-message_item r) s.usable s

when-Keeps :
    (b : Bool) (m : Method ResponseRecord (Unit {0})) (r : ResponseRecord)
    → IsSound r
    → Keeps (m r)
    → Keeps (when b m r)
when-Keeps true m r s k = k
when-Keeps false m r s k = s

pub sync_message_item-Keeps : (r : ResponseRecord) → IsSound r → Keeps (sync_message_item r)
unfolding sync_message_item
sync_message_item-Keeps r s = when-Keeps r.message_started _ r s (
    Keeps-continue (add_output_item (message_item r) r) (λ index t. (some tt, t))
      (add_message-Keeps r s) (λ index t u. u))

pub to_response-Keeps : (r : ResponseRecord) → IsSound r → Keeps (to_response r)
unfolding to_response
to_response-Keeps r s =
    Keeps-continue (sync_message_item r) (λ _ t. (some (response_json t), t))
      (sync_message_item-Keeps r s) (λ _ t u. u)

named-IsSound :
    (item_id : Option String) (r : ResponseRecord) → IsSound r → IsSound (named item_id r)
named-IsSound none r s = s
named-IsSound (some k) r s = elim (Bool-cases (k == "")) [
  | inl e ↦ rw e s
  | inr e ↦ rw e (record { usable = e; indexed = s.indexed })
]

start_message-Keeps :
    (item_id : Option String) (r : ResponseRecord) → IsSound r → Keeps (start_message item_id r)
unfolding start_message
start_message-Keeps item_id r s =
    let t = record (named item_id r) { message_started = true } in
    let u = named-IsSound item_id r s in
    let v : IsSound t = record { usable = u.usable; indexed = u.indexed } in
    Keeps-continue (add_output_item (message_item t) t) _ (add_message-Keeps t v)
      (λ index w x. record { usable = x.usable; indexed = x.indexed })

ensured-Keeps :
    (o : Option ℕ) (item_id : Option String) (r : ResponseRecord)
    → IsSound r
    → Keeps (ensured o item_id r)
unfolding ensured
ensured-Keeps none item_id r s = start_message-Keeps item_id r s
ensured-Keeps (some index) item_id r s = s

pub ensure_message-Keeps :
    (item_id : Option String) (r : ResponseRecord) → IsSound r → Keeps (ensure_message item_id r)
unfolding ensure_message
ensure_message-Keeps item_id r s = ensured-Keeps (started_index r) item_id r s

nonempty-concat : (s : String) → (concat "msg_" s == "") ≡ false
nonempty-concat s = rw (cons "m" "sg_" s, cons-nil "m" (concat "sg_" s)) refl

-- A new record.
pub create-IsSound :
    (request : CreateResponseRequest) (input_items : List Fields)
    (mcp_apps_base_url first_hex second_hex : String) (now : ℕ)
    → IsSound (create request input_items mcp_apps_base_url first_hex second_hex now)
unfolding create
create-IsSound request input_items mcp_apps_base_url first_hex second_hex now = record {
  usable = nonempty-concat second_hex;
  indexed = tt;
}
