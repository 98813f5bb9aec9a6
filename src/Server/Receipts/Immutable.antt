-- ===== src/Server/Receipts/Immutable.antt =====
-- server/index.js:266-287: what POST /receipt keeps, and what it publishes.
use monadguard.Base.{
  ℕ, ◌≡◌, refl, Bool, true, false, Bool-cases, ◌⊎◌, ◌∙◌, Option-cases, inl, inr, not, ◌||◌, ◌==◌,
  Option, none, some, List, [], ◌∷◌, ◌++◌, Text, length, split, truthy, text_eq, text_eq_sound,
  to_lower, ltb, any, find, arith, ap,
}
use monadguard.Store.{
  Db, ToolRow, ExternalReceipt, upsert_tool, put_external_receipt, get_external_receipt,
}
use monadguard.Server.Receipts.{
  Published, Publishing, ReceiptHandled, stored, refused, public_key, held, add_tool, derive_id,
  store_receipt, check_id, check_signature, check_fields, check_published, post_receipt,
}

find-append :
    (p : ExternalReceipt → Bool) (xs ys : List ExternalReceipt) (x : ExternalReceipt)
    → find p xs ≡ some x
    → find p (xs ++ ys) ≡ some x
unfolding find
find-append p [] ys x h = absurd (cc)
find-append p (y ∷ xs) ys x h = ground (arith, find-append p xs ys x)

put_external_receipt-keeps :
    (row x : ExternalReceipt) (db : Db) (h : Text)
    → get_external_receipt db h ≡ some x
    → get_external_receipt (put_external_receipt row db) h ≡ some x
unfolding put_external_receipt get_external_receipt
put_external_receipt-keeps row x db h e =
    elim (Bool-cases
      (any (λ (y : ExternalReceipt). text_eq y.receipt_hash row.receipt_hash) db.receipts)) [
        | inl k ↦ rw k e
        | inr k ↦ rw k (find-append _ db.receipts (row ∷ []) x e)
      ]

add_tool-receipts :
    (t : ToolRow) (kind : Option Text) (k : Text) (db : Db) (b : Bool) (h : Text)
    → get_external_receipt (add_tool t kind k db b).0 h ≡ get_external_receipt db h
unfolding add_tool get_external_receipt upsert_tool
add_tool-receipts t kind k db true h = refl
add_tool-receipts t (some k) h' db false h = refl
add_tool-receipts t none k db false h = refl

module _ (ext : Publishing) (db : Db) (now : ℕ) (h : Text) (x : ExternalReceipt)
    (there : get_external_receipt db h ≡ some x) where
  check_id-keeps :
      (jws : Text) (p : Published) (a b id : Text) (o : Option Text)
      → get_external_receipt (check_id ext db jws now p a b id o).0 h ≡ some x
  unfolding check_id store_receipt
  check_id-keeps jws p a b id none = there
  check_id-keeps jws p a b id (some derived) = elim (Bool-cases (text_eq derived (to_lower id))) [
    | inl e ↦ rw (e, add_tool-receipts) (put_external_receipt-keeps _ x db h there)
    | inr e ↦ rw e there
  ]

  check_signature-keeps :
      (jws : Text) (p : Published) (a b id : Text)
      → get_external_receipt (check_signature ext db jws now p a b id).0 h ≡ some x
  unfolding check_signature
  check_signature-keeps jws p a b id =
      elim (Bool-cases (not (truthy a) || not (truthy b) || not (truthy id))) [
        | inl e ↦ rw e there
        | inr e ↦ elim (Bool-cases (held (ext.verify jws (public_key a b)))) [
          | inl v ↦ rw (e, v) (check_id-keeps jws p a b id (derive_id ext p p.name p.origin))
          | inr v ↦ rw (e, v) there
        ]
      ]

  check_fields-keeps :
      (jws : Text) (p : Published) (a b id : Option Text)
      → get_external_receipt (check_fields ext db jws now p a b id).0 h ≡ some x
  unfolding check_fields
  check_fields-keeps jws p (some a) (some b) (some id) = check_signature-keeps jws p a b id
  check_fields-keeps jws p none b id = there
  check_fields-keeps jws p (some a) none id = there
  check_fields-keeps jws p (some a) (some b) none = there

  check_published-keeps :
      (jws : Text) (o : Option Published)
      → get_external_receipt (check_published ext db jws now o).0 h ≡ some x
  unfolding check_published
  check_published-keeps jws none = there
  check_published-keeps jws (some p) = check_fields-keeps jws p p.x p.y p.id

  -- Whatever is posted to POST /receipt, an external receipt that is there stays as it is.
  pub post_receipt-keeps :
      (body : Option Text) → get_external_receipt (post_receipt ext db body now).0 h ≡ some x
  unfolding post_receipt
  post_receipt-keeps none = there
  post_receipt-keeps (some jws) =
      elim (Bool-cases (ltb 200000 (length jws) || not (length (split b'.' jws) == 3))) [
        | inl e ↦ rw e there
        | inr e ↦ rw e (check_published-keeps jws (ext.decode jws))
      ]

-- A row that may be kept for a JWS: its payload names the halves of a key that verify the JWS, its
-- tool has the id of its kind, name and origin, and the row lies under the hash of the payload.
pub record IsPublished (ext : Publishing) (jws : Text) (p : Published) (row : ExternalReceipt)
    : Type 0 where
  pub id : Text
  pub has_x : p.x ≡ some row.attestor_x
  pub has_y : p.y ≡ some row.attestor_y
  pub has_id : p.id ≡ some id
  pub is_decoded : ext.decode jws ≡ some p
  pub is_verified : held (ext.verify jws (public_key row.attestor_x row.attestor_y)) ≡ true
  pub is_derived : derive_id ext p p.name p.origin ≡ some row.tool_id
  pub is_lower : row.tool_id ≡ to_lower id
  pub is_jws : row.jws ≡ jws
  pub is_hash : row.receipt_hash ≡ to_lower (ext.hash p)

-- Nothing is written, and the answer is an error.
abbrev pub IsRefused : Db → ReceiptHandled → Type 0
IsRefused db r = (r.0 ≡ db) × ((status : ℕ) × (r.1 ≡ refused status))

-- The row is written, and with it at most its tool, which needs a kind: without one the answer is an
-- error although the row is there.
abbrev pub IsKept : Db → Published → ExternalReceipt → ReceiptHandled → Type 0
IsKept db p row r =
    ((r.0 ≡ put_external_receipt row db) × (r.1 ≡ stored row.receipt_hash))
    ⊎ (((t : ToolRow) × (t.tool_id ≡ row.tool_id)
          × (r.0 ≡ upsert_tool t (put_external_receipt row db))
          × (r.1 ≡ stored row.receipt_hash))
        ⊎ ((p.kind ≡ none) × (r.0 ≡ put_external_receipt row db) × (r.1 ≡ refused 500)))

-- What a call of POST /receipt with a JWS comes to.
abbrev pub IsHandled : Publishing → Db → Text → ReceiptHandled → Type 0
IsHandled ext db jws r =
    IsRefused db r
    ⊎ ((p : Published) × (row : ExternalReceipt) × IsPublished ext jws p row × IsKept db p row r)

module _ (ext : Publishing) (db : Db) (now : ℕ) where
  add_tool-IsKept :
      (p : Published) (row : ExternalReceipt) (t : ToolRow) (b : Bool)
      → t.tool_id ≡ row.tool_id
      → IsKept db p row (add_tool t p.kind row.receipt_hash (put_external_receipt row db) b)
  unfolding add_tool
  add_tool-IsKept p row t true e = inl (refl, refl)
  add_tool-IsKept p row t false e = elim (Option-cases p.kind) [
    | inl k ↦ rw k (inr (inr (refl, refl, refl)))
    | inr (kind, k) ↦ rw k (inr (inl (t, e, refl, refl)))
  ]

  check_id-IsHandled :
      (jws : Text) (p : Published) (x y id : Text) (o : Option Text)
      → p.x ≡ some x
      → p.y ≡ some y
      → p.id ≡ some id
      → ext.decode jws ≡ some p
      → held (ext.verify jws (public_key x y)) ≡ true
      → derive_id ext p p.name p.origin ≡ o
      → IsHandled ext db jws (check_id ext db jws now p x y id o)
  unfolding check_id store_receipt
  check_id-IsHandled jws p x y id none ex ey ei d v k = inl (refl, (500, refl))
  check_id-IsHandled jws p x y id (some derived) ex ey ei d v k =
      elim (Bool-cases (text_eq derived (to_lower id))) [
        | inr e ↦ rw e (inl (refl, (400, refl)))
        | inl e ↦ rw e (
            inr (
              p,
              _,
              record {
                id = id;
                has_x = ex;
                has_y = ey;
                has_id = ei;
                is_decoded = d;
                is_verified = v;
                is_derived = k ∙ ap some (text_eq_sound derived (to_lower id) e);
                is_lower = refl;
                is_jws = refl;
                is_hash = refl;
              },
              add_tool-IsKept p _ _ _ refl,
            ))
      ]

  check_signature-IsHandled :
      (jws : Text) (p : Published) (x y id : Text)
      → p.x ≡ some x
      → p.y ≡ some y
      → p.id ≡ some id
      → ext.decode jws ≡ some p
      → IsHandled ext db jws (check_signature ext db jws now p x y id)
  unfolding check_signature
  check_signature-IsHandled jws p x y id ex ey ei d =
      elim (Bool-cases (not (truthy x) || not (truthy y) || not (truthy id))) [
        | inl k ↦ rw k (inl (refl, (400, refl)))
        | inr k ↦ elim (Bool-cases (held (ext.verify jws (public_key x y)))) [
          | inl v ↦
              rw (k, v)
                (check_id-IsHandled jws p x y id (derive_id ext p p.name p.origin) ex ey ei d v
                  refl)
          | inr v ↦ rw (k, v) (inl (refl, (400, refl)))
        ]
      ]

  check_fields-IsHandled :
      (jws : Text) (p : Published) (x y id : Option Text)
      → p.x ≡ x
      → p.y ≡ y
      → p.id ≡ id
      → ext.decode jws ≡ some p
      → IsHandled ext db jws (check_fields ext db jws now p x y id)
  unfolding check_fields
  check_fields-IsHandled jws p (some x) (some y) (some id) ex ey ei d =
      check_signature-IsHandled jws p x y id ex ey ei d
  check_fields-IsHandled jws p none y id ex ey ei d = inl (refl, (400, refl))
  check_fields-IsHandled jws p (some x) none id ex ey ei d = inl (refl, (400, refl))
  check_fields-IsHandled jws p (some x) (some y) none ex ey ei d = inl (refl, (400, refl))

  check_published-IsHandled :
      (jws : Text) (o : Option Published)
      → ext.decode jws ≡ o
      → IsHandled ext db jws (check_published ext db jws now o)
  unfolding check_published
  check_published-IsHandled jws none d = inl (refl, (400, refl))
  check_published-IsHandled jws (some p) d =
      check_fields-IsHandled jws p p.x p.y p.id refl refl refl d

  -- A call of POST /receipt with a JWS leaves the store as it was and answers with an error; or the
  -- JWS decodes to a payload that names the halves of a key with which it verifies and whose tool
  -- id is, but for case, that of its kind, name and origin, and a row with this JWS, key and tool
  -- id is put under the hash of the payload, unless a row lies there already, with at most that
  -- tool added: then the answer is the hash, or, if the payload names no kind and no tool is added,
  -- the error 500.
  pub post_receipt-IsHandled :
      (jws : Text) → IsHandled ext db jws (post_receipt ext db (some jws) now)
  unfolding post_receipt
  post_receipt-IsHandled jws =
      elim (Bool-cases (ltb 200000 (length jws) || not (length (split b'.' jws) == 3))) [
        | inl k ↦ rw k (inl (refl, (400, refl)))
        | inr k ↦ rw k (check_published-IsHandled jws (ext.decode jws) refl)
      ]
