-- ===== src/Server/Receipts/Served.antt =====
-- A receipt that POST /receipt accepts is what GET /receipt serves.
use mathlib.Core.Option.{some-injective}
use monadguard.Base.{
  ℕ, Bool, true, false, ◌==◌, ◌≡◌, ◌≤◌, refl, inl, inr, Bool-cases, Option, none, some, List, [],
  ◌∷◌, ◌++◌, Text, length, split, truthy, text_eq, text_eq_refl, to_lower, to_lower_idem, ltb, any,
  find, arith,
}
use monadguard.Store.{
  Db, ToolRow, ExternalReceipt, get_scan, get_external_receipt, put_external_receipt, upsert_tool,
}
use monadguard.Server.Receipts.{
  Published, Publishing, ReceiptHandled, stored, public_key, held, derive_id, add_tool,
  store_receipt, check_id, check_signature, check_fields, check_published, post_receipt,
  get_receipt, served, stored_jws,
}

-- A hash that is not in the list of receipts is not found there, and after it was put there it is.
find-append_new :
    (p : ExternalReceipt → Bool) (xs : List ExternalReceipt) (x : ExternalReceipt)
    → find p xs ≡ none
    → p x ≡ true
    → (any p xs ≡ false) × (find p (xs ++ x ∷ []) ≡ some x)
unfolding find any
find-append_new p [] x n h = (refl, rw h refl)
find-append_new p (y ∷ ys) x n h = elim (Bool-cases (p y)) [
  | inl e ↦ absurd (cc (rw e at n))
  | inr e ↦ let (a, b) = find-append_new p ys x (rw e at n) h in rw e (a, b)
]

get_external_receipt-put :
    (x : ExternalReceipt) (db : Db)
    → get_external_receipt db x.receipt_hash ≡ none
    → get_external_receipt (put_external_receipt x db) x.receipt_hash ≡ some x
unfolding get_external_receipt put_external_receipt
get_external_receipt-put x db n =
    let (a, b) =
      find-append_new (λ y. text_eq y.receipt_hash x.receipt_hash) db.receipts x n
        (text_eq_refl x.receipt_hash) in
    rw a b

get_scan-put :
    (x : ExternalReceipt) (db : Db) (h : Text)
    → get_scan (put_external_receipt x db) h ≡ get_scan db h
unfolding get_scan put_external_receipt
get_scan-put x db h =
    elim (Bool-cases
      (any (λ (y : ExternalReceipt). text_eq y.receipt_hash x.receipt_hash) db.receipts)) [
        | inl k ↦ rw k refl
        | inr k ↦ rw k refl
      ]

parts_truthy : (s : Text) → (length (split b'.' s) == 3) ≡ true → truthy s ≡ true
unfolding truthy split
parts_truthy [] h = absurd (cc)
parts_truthy (c ∷ s) h = refl

module _ (ext : Publishing) (db : Db) (jws : Text) (now : ℕ) where
  -- The payload names its key and its tool in full, the key verifies the JWS, and the id of the tool is
  -- that of its kind, name and origin.
  pub record IsAcceptable (p : Published) : Type 0 where
    pub x : Text
    pub y : Text
    pub id : Text
    pub kind : Text
    pub has_x : p.x ≡ some x
    pub has_y : p.y ≡ some y
    pub has_id : p.id ≡ some id
    pub has_kind : p.kind ≡ some kind
    pub is_x : truthy x ≡ true
    pub is_y : truthy y ≡ true
    pub is_id : truthy id ≡ true
    pub is_verified : held (ext.verify jws (public_key x y)) ≡ true
    pub is_derived : derive_id ext p p.name p.origin ≡ some (to_lower id)

  -- The answer to the store.
  IsServed : Published → ReceiptHandled → Type 0
  IsServed p r =
      (r.1 ≡ stored (to_lower (ext.hash p))) × (get_receipt r.0 (to_lower (ext.hash p)) ≡ some jws)

  add_tool-IsServed :
      (p : Published) (t : ToolRow) (o : Option Text) (kind : Text) (d : Db) (b : Bool)
      → o ≡ some kind
      → get_receipt d (to_lower (ext.hash p)) ≡ some jws
      → IsServed p (add_tool t o (to_lower (ext.hash p)) d b)
  unfolding add_tool IsServed get_receipt upsert_tool get_scan get_external_receipt
  add_tool-IsServed p t o kind d true e h = (refl, h)
  add_tool-IsServed p t (some k) kind d false e h = (refl, h)
  add_tool-IsServed p t none kind d false e h = absurd (cc)

  get_receipt-put :
      (x : ExternalReceipt)
      → x.jws ≡ jws
      → to_lower x.receipt_hash ≡ x.receipt_hash
      → truthy jws ≡ true
      → get_scan db x.receipt_hash ≡ none
      → get_external_receipt db x.receipt_hash ≡ none
      → get_receipt (put_external_receipt x db) x.receipt_hash ≡ some jws
  unfolding get_receipt served stored_jws
  get_receipt-put x is low t scan ext' =
      rw (low, get_scan-put x db x.receipt_hash, scan, get_external_receipt-put x db ext', is, t)
        refl

  IsNew : Published → Type 0
  IsNew p =
      (get_scan db (to_lower (ext.hash p)) ≡ none)
      × (get_external_receipt db (to_lower (ext.hash p)) ≡ none)

  store_receipt-IsServed :
      (p : Published) (a : IsAcceptable p)
      → truthy jws ≡ true
      → IsNew p
      → IsServed p (store_receipt ext db jws now p a.x a.y a.id)
  unfolding store_receipt IsNew
  store_receipt-IsServed p a t (scan, old) =
      add_tool-IsServed p _ p.kind a.kind _ _ a.has_kind
        (get_receipt-put _ refl (to_lower_idem (ext.hash p)) t scan old)

  check_id-IsServed :
      (p : Published) (a : IsAcceptable p) (o : Option Text)
      → truthy jws ≡ true
      → IsNew p
      → o ≡ some (to_lower a.id)
      → IsServed p (check_id ext db jws now p a.x a.y a.id o)
  unfolding check_id
  check_id-IsServed p a none t new e = absurd (cc)
  check_id-IsServed p a (some d) t new e =
      rw (some-injective _ _ e, text_eq_refl (to_lower a.id)) (store_receipt-IsServed p a t new)

  check_fields-IsServed :
      (p : Published) (a : IsAcceptable p) (x y id : Option Text)
      → truthy jws ≡ true
      → IsNew p
      → x ≡ some a.x
      → y ≡ some a.y
      → id ≡ some a.id
      → IsServed p (check_fields ext db jws now p x y id)
  unfolding check_fields check_signature
  check_fields-IsServed p a (some x) (some y) (some id) t new ex ey ei =
      rw
        (
          some-injective _ _ ex,
          some-injective _ _ ey,
          some-injective _ _ ei,
          a.is_x,
          a.is_y,
          a.is_id,
          a.is_verified,
        )
        (check_id-IsServed p a (derive_id ext p p.name p.origin) t new a.is_derived)
  check_fields-IsServed p a none y id t new ex ey ei = absurd (cc)
  check_fields-IsServed p a (some x) none id t new ex ey ei = absurd (cc)
  check_fields-IsServed p a (some x) (some y) none t new ex ey ei = absurd (cc)

  -- A JWS of three parts and 200000 characters at most, whose payload names its key and its tool in
  -- full, that the key verifies, and whose tool has the id of its kind, name and origin, is stored
  -- by POST /receipt if its hash is new to the store, and GET /receipt then serves it under the
  -- hash.
  pub post_receipt-IsServed :
      (p : Published)
      → ext.decode jws ≡ some p
      → IsAcceptable p
      → length jws ≤ 200000
      → (length (split b'.' jws) == 3) ≡ true
      → get_scan db (to_lower (ext.hash p)) ≡ none
      → get_external_receipt db (to_lower (ext.hash p)) ≡ none
      → ((post_receipt ext db (some jws) now).1 ≡ stored (to_lower (ext.hash p)))
        × (get_receipt (post_receipt ext db (some jws) now).0 (to_lower (ext.hash p)) ≡ some jws)
  unfolding post_receipt check_published IsNew IsServed
  post_receipt-IsServed p d a n parts scan old =
      let not_long : ltb 200000 (length jws) ≡ false = ground (arith, n) in
      rw (not_long, parts, d)
        (check_fields-IsServed p a p.x p.y p.id (parts_truthy jws parts) (scan, old) a.has_x a.has_y
          a.has_id)
