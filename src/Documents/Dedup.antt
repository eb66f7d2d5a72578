-- ===== src/Documents/Dedup.antt =====
-- One document for each digest.
use n8n_production_systems.Dict.{get, get-put}
use n8n_production_systems.Text.Equality.{text_key, nat_key, text_eq_iff, text_eq_refl}
use n8n_production_systems.Documents.{
  NewDocument, StoredDocument, Documents, stored_of, insert_document, put_document, get_document,
}
use n8n_production_systems.Common.{
  ℕ, ◌≡◌, some, none, Bool-cases, false, inl, inr, Option-cases, arith, if◌then◌else◌, ok, ◌==◌,
  ==_iff, true, ◌⊎◌, false_of_ne_true, ap, refl, subst, sym,
}
use n8n_production_systems.Text.{Text, text_eq}

-- The two tables agree: a digest leads to the document that has it, and each document is found by
-- its digest, under its own id.
pub record Inv (s : Documents) : Type 0 where
  pub hashed :
      (h : Text) (id : ℕ)
      → get s.by_hash h ≡ some id
      → (d : StoredDocument) × (get s.by_id id ≡ some d) × (d.sha256 ≡ h)
  pub stored :
      (id : ℕ) (d : StoredDocument)
      → get s.by_id id ≡ some d
      → (d.id ≡ id) × (get s.by_hash d.sha256 ≡ some id) × (d.deduplicated ≡ false)

-- a new id, as `uuid4` makes it
abbrev pub IsFresh : ℕ → Documents → Type 0
IsFresh id s = get s.by_id id ≡ none

module _ (s : Documents) (id : ℕ) (n : NewDocument) where
  by_hash_after :
      (h : Text)
      → get (insert_document s id n).by_hash h
        ≡ (if text_eq n.sha256 h then some id else get s.by_hash h)
  unfolding insert_document
  by_hash_after h = get-put s.by_hash n.sha256 h id

  by_id_after :
      (j : ℕ)
      → get (insert_document s id n).by_id j
        ≡ (if id == j then some (stored_of id n) else get s.by_id j)
  unfolding insert_document
  by_id_after j = get-put s.by_id id j (stored_of id n)

  module _ (v : Inv s) (fresh : IsFresh id s) (new : get s.by_hash n.sha256 ≡ none) where
    hashed_after :
        (h : Text) (j : ℕ)
        → get (insert_document s id n).by_hash h ≡ some j
        → (d : StoredDocument) × (get (insert_document s id n).by_id j ≡ some d) × (d.sha256 ≡ h)
    hashed_after h j e = elim (Bool-cases (text_eq n.sha256 h)) [
      | inl same ↦ (
        stored_of id n,
        ground (arith, e, same, by_hash_after h, by_id_after j),
        (text_eq_iff n.sha256 h).0 same,
      )
      | inr other ↦
          let (d, found, hash) = v.hashed h j (ground (arith, e, other, by_hash_after h)) in
          (d, ground (arith, found, fresh, by_id_after j), hash)
    ]

    stored_after :
        (j : ℕ) (d : StoredDocument)
        → get (insert_document s id n).by_id j ≡ some d
        → (d.id ≡ j)
          × (get (insert_document s id n).by_hash d.sha256 ≡ some j)
          × (d.deduplicated ≡ false)
    stored_after j d e = elim (Bool-cases (id == j)) [
      | inl same ↦
          let is : stored_of id n ≡ d = ground (arith, e, same, by_id_after j) in
          let at : id ≡ j = (==_iff id j).0 same in
          rw (← is) (at, ground (arith, at, by_hash_after n.sha256, text_eq_refl n.sha256), refl)
      | inr other ↦
          let (own, hash, plain) = v.stored j d (ground (arith, e, other, by_id_after j)) in
          let differs : text_eq n.sha256 d.sha256 ≡ false = false_of_ne_true _ λ same.
            ground
              (arith, new, hash, ap (get s.by_hash) ((text_eq_iff n.sha256 d.sha256).0 same)) in
          (own, ground (arith, differs, hash, by_hash_after d.sha256), plain)
    ]

    insert-Inv : Inv (insert_document s id n)
    insert-Inv = record { hashed = hashed_after; stored = stored_after }

-- Putting a document keeps the tables in agreement, if the new id is fresh.
pub put_document-Inv :
    (s : Documents) (id : ℕ) (n : NewDocument) → Inv s → IsFresh id s → Inv (put_document s id n).1
unfolding put_document
put_document-Inv s id n v fresh = elim (Option-cases (get s.by_hash n.sha256)) [
  | inl new ↦ rw (new, put_document) (insert-Inv s id n v fresh new)
  | inr (j, old) ↦
      let (d, found, hash) = v.hashed n.sha256 j old in rw (old, put_document) (rw found v)
]

-- In a consistent store a put never raises. A document whose digest is known is not stored again:
-- the answer is the one with that digest, marked as deduplicated. Any other is stored under the new id,
-- where it is then found.
pub put_document_cases :
    (s : Documents) (id : ℕ) (n : NewDocument)
    → Inv s
    → ((old : StoredDocument) × (get_document s old.id ≡ some old)
        × (old.sha256 ≡ n.sha256)
        × (put_document s id n ≡ (ok (record old { deduplicated = true }), s)))
      ⊎ ((get s.by_hash n.sha256 ≡ none)
          × (put_document s id n ≡ (ok (stored_of id n), insert_document s id n))
          × (get_document (insert_document s id n) id ≡ some (stored_of id n)))
unfolding put_document get_document
put_document_cases s id n v = elim (Option-cases (get s.by_hash n.sha256)) [
  | inl new ↦ inr (new, rw (new, put_document), ground (arith, by_id_after s id n id))
  | inr (j, old) ↦
      let (d, found, hash) = v.hashed n.sha256 j old in
      let (own, at, plain) = v.stored j d found in
      inl (
        d,
        subst (λ k. get s.by_id k ≡ some d) (sym own) found,
        hash,
        rw (old, put_document) (rw found),
      )
]
