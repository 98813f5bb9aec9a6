-- ===== src/Passkey/Anchoring.antt =====
-- The order of web/src/passkey.js:136-168: a receipt is published before it is anchored.
use monadguard.Base.{
  ℕ, true, false, Option, none, some, List, ◌∷◌, Text, ◌≡◌, ◌⊎◌, refl, ap, inl, inr, Bool-cases,
  Option-cases,
}
use monadguard.Receipt.{Receipt}
use monadguard.Receipt.Digests.{anchor_digest}
use monadguard.Server.Scan.Handler.{was_declined}
use monadguard.Passkey.{
  Session, Page, Request, Upload, Outside, Event, sent, uploaded, anchored, anchor_of, receipt_of,
  result_of, is_empty, send, after_upload, anchor_at, publish, scan_as, scan_and_anchor,
}

module _ (ext : Outside) where
  abbrev pub jws_of : Session → Receipt → Text
  jws_of s payload = ext.sign_receipt payload s.attestor.private_key

  -- The anchor of the receipt that was published went out behind it, with its URI.
  abbrev pub IsAnchored : Session → Receipt → (before after : List Event) → Type 0
  IsAnchored s payload before after =
      (uri : Text) × (up : Upload) × (ext.upload (jws_of s payload) ≡ some up)
      × (up.ok ≡ true)
      × (up.uri ≡ some uri)
      × (after
          ≡ sent (
              anchored (anchor_of ext s payload) uri (
                ext.sign (anchor_digest ext.digesting (anchor_of ext s payload))
                  s.attestor.private_key))
            ∷ uploaded (jws_of s payload)
            ∷ before)

  -- A receipt of the request was published, and then perhaps anchored.
  abbrev pub IsPublished : Session → Receipt → (before after : List Event) → Type 0
  IsPublished s payload before after =
      (after ≡ uploaded (jws_of s payload) ∷ before) ⊎ IsAnchored s payload before after

  after_upload-IsPublished :
      (s : Session) (payload : Receipt) (page : Page) (before : List Event) (o : Option Upload)
      → page.events ≡ uploaded (jws_of s payload) ∷ before
      → ext.upload (jws_of s payload) ≡ o
      → IsPublished s payload before (after_upload ext s payload page o).0.events
  unfolding after_upload anchor_at send
  after_upload-IsPublished s payload page before none e u = inl e
  after_upload-IsPublished s payload page before (some up) e u = elim (Bool-cases up.ok) [
    | inr k ↦ rw k (inl e)
    | inl k ↦ elim (Option-cases up.uri) [
      | inl n ↦ rw (k, n) (inl e)
      | inr (uri, n) ↦
          rw (k, n)
            (inr (
              uri,
              up,
              u,
              k,
              n,
              ap
                  (λ es.
                    sent (
                      anchored (anchor_of ext s payload) uri (
                        ext.sign (anchor_digest ext.digesting (anchor_of ext s payload))
                          s.attestor.private_key))
                    ∷ es)
                  e,
            ))
    ]
  ]

  abbrev pub IsScanned : Request → ℕ → Page → List Event → Type 0
  IsScanned q now_ms page after =
      (s : Session) × (payload : Receipt) × (page.state ≡ some s)
      × (is_empty ext q ≡ false)
      × (was_declined (result_of ext q).scanned ≡ false)
      × (receipt_of ext s q now_ms ≡ some payload)
      × IsPublished s payload page.events after

  publish-IsPublished :
      (s : Session) (payload : Receipt) (page : Page)
      → IsPublished s payload page.events (publish ext s page (some payload)).0.events
  unfolding publish
  publish-IsPublished s payload page =
      after_upload-IsPublished s payload
        (record page { events = uploaded (jws_of s payload) ∷ page.events }) page.events
        (ext.upload (jws_of s payload)) refl refl

  scan_as-IsScanned :
      (q : Request) (now_ms : ℕ) (page : Page) (o : Option Session)
      → page.state ≡ o
      → ((scan_as ext q now_ms page o).0.events ≡ page.events)
        ⊎ IsScanned q now_ms page (scan_as ext q now_ms page o).0.events
  unfolding scan_as
  scan_as-IsScanned q now_ms page none e = inl refl
  scan_as-IsScanned q now_ms page (some s) e = elim (Bool-cases (is_empty ext q)) [
    | inl b ↦ rw b (inl refl)
    | inr b ↦ elim (Bool-cases (was_declined (result_of ext q).scanned)) [
      | inl d ↦ rw (b, d) (inl refl)
      | inr d ↦ elim (Option-cases (receipt_of ext s q now_ms)) [
        | inl r ↦ rw (b, d, r) (inl refl)
        | inr (payload, r) ↦
            rw (b, d, r) (inr (s, payload, e, refl, refl, r, publish-IsPublished s payload page))
      ]
    ]
  ]

  -- scanAndAnchor sends nothing, or the passkey is unlocked, there was something to scan, the scan
  -- was not declined and a receipt was built: then it uploads that receipt, signed, and after it
  -- sends nothing more but the anchor of the same receipt, and this only if the server took the
  -- upload, with the URI of the server's answer.
  pub scan_and_anchor-IsScanned :
      (q : Request) (now_ms : ℕ) (page : Page)
      → ((scan_and_anchor ext q now_ms page).0.events ≡ page.events)
        ⊎ IsScanned q now_ms page (scan_and_anchor ext q now_ms page).0.events
  unfolding scan_and_anchor
  scan_and_anchor-IsScanned q now_ms page = scan_as-IsScanned q now_ms page page.state refl
