-- ===== src/Workflows/Files/Steps.antt =====
-- What a loop over files comes to: each step turns the text of its file into another, or fails.
pub mod Run
use n8n_production_systems.Dict.{put}
use n8n_production_systems.Text.{Text, text_eq}
use n8n_production_systems.Text.Equality.{text_eq_iff, text_key}
use n8n_production_systems.Text.Contains.{is_member}
use n8n_production_systems.Text.Lines.{universal}
use n8n_production_systems.Workflows.Files.{
  Disk, Host, read_text, is_reported, also_failed, after_file, process_all, write_text,
  is_encodable,
}
use n8n_production_systems.Workflows.Files.Laws.{read_text-put}
use n8n_production_systems.Common.{
  ◌≡◌, refl, ◌⊎◌, inl, inr, Bool, true, false, ◌||◌, Bool-cases, List, [], ◌∷◌, Outcome, ok, raises,
  Exception, All, arith, if◌then◌else◌, ap, sym, ◌∙◌, subst, encode_error, permission_error,
}

neither : (a b : Bool) → (a || b) ≡ false → (a ≡ false) × (b ≡ false)
neither a b h = ground arith

-- No path is given twice.
abbrev pub Distinct : List Text → Type 0
Distinct [] = Unit
Distinct (p ∷ ps) = (is_member p ps ≡ false) × Distinct ps

-- every other file is as it was
abbrev pub KeepsOthers : Text → Disk → Disk → Type 0
KeepsOthers p start final = (q : Text) → text_eq p q ≡ false → read_text final q ≡ read_text start q

-- What a command does with the text of a file: what it turns the text into, and the exceptions that
-- it raises for the text.
pub record Job : Type 1 where
  pub host : Host
  pub turns : Text → Text → Type 0
  pub text_fails : Text → Exception → Type 0

-- `P` holds of one of them
abbrev pub Some : (Text → Type 0) → List Text → Type 0
Some P [] = ⊥
Some P (p ∷ ps) = P p ⊎ Some P ps

module _ (job : Job) where
  -- The file held a text, and holds what that is turned into, up to the ends of the lines.
  abbrev pub Turned : Disk → Disk → Text → Type 0
  Turned start final p =
      (t : Text) × (u : Text) × (read_text start p ≡ ok t)
      × job.turns t u
      × (read_text final p ≡ ok (universal u))

  -- Why a file cannot be turned: it is not read, its text is refused, or the new text is not written,
  -- as the file cannot be opened or the text has no encoding.
  abbrev pub Fails : Text → Outcome Text → Exception → Type 0
  Fails p found e =
      (found ≡ raises e)
      ⊎ ((t : Text) × (found ≡ ok t) × job.text_fails t e)
      ⊎ ((t : Text) × (u : Text) × (found ≡ ok t)
          × job.turns t u
          × (((job.host.is_writable p ≡ false) × (e ≡ permission_error))
              ⊎ ((is_encodable u ≡ false) × (e ≡ encode_error))))

  -- The file cannot be turned, for a reason that is reported, and is as it was.
  abbrev pub Stays : Disk → Disk → Text → Type 0
  Stays start final p =
      (e : Exception) × (is_reported e ≡ true)
      × Fails p (read_text start p) e
      × (read_text final p ≡ read_text start p)

  -- A step keeps the other files. It fails with a report and keeps its file, raises what is not
  -- reported, or turns the text of its file.
  abbrev pub IsStep : (A : Type 0) → Text → Disk → Outcome A × Disk → Type 0
  IsStep A p files r =
      KeepsOthers p files r.1
      × (((e : Exception) × (is_reported e ≡ true)
            × Fails p (read_text files p) e
            × (r ≡ (raises e, files)))
          ⊎ ((e : Exception) × (is_reported e ≡ false)
              × Fails p (read_text files p) e
              × (r.0 ≡ raises e))
          ⊎ ((a : A) × (r.0 ≡ ok a) × Turned files r.1 p))

  -- Every file is turned; or one or more stay for a reason that is reported, and the others are
  -- turned; or the run is ended by an exception that is not reported, which one of the files causes.
  abbrev pub Ended : List Text → Disk → Outcome Bool × Disk → Type 0
  Ended ps start after =
      ((after.0 ≡ ok false) × All (Turned start after.1) ps)
      ⊎ ((after.0 ≡ ok true)
          × All (λ p. Turned start after.1 p ⊎ Stays start after.1 p) ps
          × Some (Stays start after.1) ps)
      ⊎ ((e : Exception) × (is_reported e ≡ false)
          × (after.0 ≡ raises e)
          × Some (λ p. Fails p (read_text start p) e) ps)

  -- an exception that leaves the files as they are
  pub raised-IsStep :
      (A : Type 0) (p : Text) (files : Disk) (e : Exception)
      → Fails p (read_text files p) e
      → IsStep A p files (raises e, files)
  raised-IsStep A p files e why = elim (Bool-cases (is_reported e)) [
    | inl known ↦ (λ q apart. refl, inl (e, known, why, refl))
    | inr other ↦ (λ q apart. refl, inr (inl (e, other, why, refl)))
  ]

  -- writing what a text is turned into
  pub write_text-IsStep :
      (p t u : Text) (files : Disk)
      → read_text files p ≡ ok t
      → job.turns t u
      → IsStep Bool p files (write_text job.host files p u)
  unfolding write_text is_reported
  write_text-IsStep p t u files read turns = elim (Bool-cases (job.host.is_writable p)) [
    | inr locked ↦ rw locked (
      λ q other. refl,
      inl (permission_error, refl, inr (inr (t, u, read, turns, inl (refl, refl))), refl),
    )
    | inl open_ ↦ elim (Bool-cases (is_encodable u)) [
      | inl plain ↦
          rw (open_, plain)
            (
              λ q other. rw (read_text-put files p u q, other) refl,
              inr (
                  inr (
                    true,
                    refl,
                    (
                      t,
                      u,
                      read,
                      turns,
                      rw (read_text-put files p u p, (text_eq_iff p p).1 refl) refl,
                    ),
                  )),
            )
      | inr odd ↦
          rw (open_, odd)
            (
              λ q other. rw (read_text-put files p [] q, other) refl,
              inr (inl (encode_error, refl, inr (inr (t, u, read, turns, inr (odd, refl))), refl)),
            )
    ]
  ]

  pub other_way : (p q : Text) → text_eq p q ≡ false → text_eq q p ≡ false
  other_way p q h = ground (arith, text_eq_iff p q, text_eq_iff q p)

  -- what holds of the files from a later start holds from the start
  pub earlier :
      (p : Text) (start written final : Disk) (ps : List Text)
      → KeepsOthers p start written
      → is_member p ps ≡ false
      → All (Turned written final) ps
      → All (Turned start final) ps
  unfolding is_member
  earlier p start written final [] keeps apart all = tt
  earlier p start written final (q ∷ ps) keeps apart ((t, u, read, turns, held), all) =
      let (other, rest) = neither (text_eq p q) (is_member p ps) apart in
      (
        (t, u, sym (keeps q other) ∙ read, turns, held),
        earlier p start written final ps keeps rest all,
      )

  pub earlier-Stays :
      (q : Text) (start written final : Disk)
      → read_text written q ≡ read_text start q
      → Stays written final q
      → Stays start final q
  earlier-Stays q start written final same (e, known, why, kept) =
      (e, known, subst (λ found. Fails q found e) same why, kept ∙ same)

  pub earlier_each :
      (p : Text) (start written final : Disk) (ps : List Text)
      → KeepsOthers p start written
      → is_member p ps ≡ false
      → All (λ q. Turned written final q ⊎ Stays written final q) ps
      → All (λ q. Turned start final q ⊎ Stays start final q) ps
  unfolding is_member
  earlier_each p start written final [] keeps apart all = tt
  earlier_each p start written final (q ∷ ps) keeps apart (one, all) =
      let (other, rest) = neither (text_eq p q) (is_member p ps) apart in
      let same = keeps q other in
      (
        elim one [
          | inl (t, u, read, turns, held) ↦ inl (t, u, sym same ∙ read, turns, held)
          | inr stays ↦ inr (earlier-Stays q start written final same stays)
        ],
        earlier_each p start written final ps keeps rest all,
      )

  -- the same of one of them
  pub earlier-Some :
      (P Q : Text → Type 0) (p : Text) (start written : Disk) (ps : List Text)
      → KeepsOthers p start written
      → ((q : Text) → read_text written q ≡ read_text start q → P q → Q q)
      → is_member p ps ≡ false
      → Some P ps
      → Some Q ps
  unfolding is_member
  earlier-Some P Q p start written [] keeps moves apart one = absurd one
  earlier-Some P Q p start written (q ∷ ps) keeps moves apart (inl here) =
      inl (moves q (keeps q ((neither (text_eq p q) (is_member p ps) apart).0)) here)
  earlier-Some P Q p start written (q ∷ ps) keeps moves apart (inr there) = inr (
      earlier-Some P Q p start written ps keeps moves
        ((neither (text_eq p q) (is_member p ps) apart).1) there)

  pub weaken_each :
      (start final : Disk) (ps : List Text)
      → All (Turned start final) ps
      → All (λ q. Turned start final q ⊎ Stays start final q) ps
  weaken_each start final [] all = tt
  weaken_each start final (q ∷ ps) (one, all) = (inl one, weaken_each start final ps all)
