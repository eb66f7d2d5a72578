-- ===== src/Workflows/Files/Steps/Run.antt =====
-- The loop over distinct files.
use n8n_production_systems.Text.{Text, text_eq}
use n8n_production_systems.Text.Contains.{is_member}
use n8n_production_systems.Workflows.Files.{
  Disk, read_text, is_reported, also_failed, after_file, process_all,
}
use n8n_production_systems.Workflows.Files.Steps.{
  Distinct, Job, KeepsOthers, Turned, Stays, Fails, IsStep, Ended, other_way, earlier, earlier_each,
  earlier-Stays, earlier-Some, weaken_each, neither,
}
use n8n_production_systems.Common.{
  ◌≡◌, refl, ◌⊎◌, inl, inr, Bool, false, Bool-cases, List, [], ◌∷◌, Outcome, ok, raises, ap, sym,
  ◌∙◌, subst,
}

also_failed-files : (r : Outcome Bool × Disk) → (also_failed r).1 ≡ r.1
unfolding also_failed
also_failed-files (ok b, files) = refl
also_failed-files (raises e, files) = refl

after_file-files :
    {A : Type 0} (process_file : Text → Disk → Outcome A × Disk) (result : Outcome A)
    (written : Disk) (rest : Outcome Bool × Disk)
    → ((after_file process_file result written rest).1 ≡ rest.1)
      ⊎ ((after_file process_file result written rest).1 ≡ written)
unfolding after_file
after_file-files process_file (ok a) written rest = inl refl
after_file-files process_file (raises e) written rest = elim (Bool-cases (is_reported e)) [
  | inl known ↦ inl (rw known (also_failed-files rest))
  | inr other ↦ inr (rw other refl)
]

module _ (job : Job) {A : Type 0} (process_file : Text → Disk → Outcome A × Disk)
    (step : (p : Text) (files : Disk) → IsStep job A p files (process_file p files)) where
  -- a file that is not given is as it was
  untouched :
      (ps : List Text) (files : Disk) (q : Text)
      → is_member q ps ≡ false
      → read_text (process_all process_file ps files).1 q ≡ read_text files q
  unfolding process_all is_member
  untouched [] files q apart = refl
  untouched (p ∷ ps) files q apart =
      let (other, rest_apart) = neither (text_eq q p) (is_member q ps) apart in
      let (result, written) = process_file p files in
      let rest = process_all process_file ps written in
      let kept : read_text written q ≡ read_text files q =
        (step p files).0 q (other_way job q p other) in
      elim (after_file-files process_file result written rest) [
        | inl same ↦ ap (λ d. read_text d q) same ∙ untouched ps written q rest_apart ∙ kept
        | inr same ↦ ap (λ d. read_text d q) same ∙ kept
      ]

  -- a failure that is reported, before the other files
  failed-Ended :
      (p : Text) (ps : List Text) (files : Disk) (rest : Outcome Bool × Disk)
      → Stays job files rest.1 p
      → Ended job ps files rest
      → Ended job (p ∷ ps) files (also_failed rest)
  unfolding also_failed
  failed-Ended p ps files (ok b, final) stays (inl (clean, all)) =
      inr (inl (refl, (inr stays, weaken_each job files final ps all), inl stays))
  failed-Ended p ps files (ok b, final) stays (inr (inl (failed, all, one))) =
      inr (inl (refl, (inr stays, all), inl stays))
  failed-Ended p ps files (ok b, final) stays (inr (inr (e, unknown, raised, one))) = absurd (cc)
  failed-Ended p ps files (raises d, final) stays (inl (clean, all)) = absurd (cc)
  failed-Ended p ps files (raises d, final) stays (inr (inl (failed, all, one))) = absurd (cc)
  failed-Ended p ps files (raises d, final) stays (inr (inr (e, unknown, raised, one))) =
      inr (inr (e, unknown, raised, inr one))

  -- a file that was turned, before the other files
  done-Ended :
      (p : Text) (ps : List Text) (files written : Disk) (rest : Outcome Bool × Disk)
      → KeepsOthers p files written
      → is_member p ps ≡ false
      → Turned job files rest.1 p
      → Ended job ps written rest
      → Ended job (p ∷ ps) files rest
  done-Ended p ps files written rest keeps apart turned (inl (clean, all)) =
      inl (clean, (turned, earlier job p files written rest.1 ps keeps apart all))
  done-Ended p ps files written rest keeps apart turned (inr (inl (failed, all, one))) = inr (
      inl (
        failed,
        (inl turned, earlier_each job p files written rest.1 ps keeps apart all),
        inr (
            earlier-Some job (Stays job written rest.1) (Stays job files rest.1) p files written ps
              keeps (λ q same. earlier-Stays job q files written rest.1 same) apart one),
      ))
  done-Ended p ps files written rest keeps apart turned (inr (inr (e, unknown, raised, one))) =
      inr (
        inr (
          e,
          unknown,
          raised,
          inr (
              earlier-Some job (λ q. Fails job q (read_text written q) e)
                (λ q. Fails job q (read_text files q) e) p files written ps keeps
                (λ q same. subst (λ found. Fails job q found e) same) apart one),
        ))

  pub process_all-Ended :
      (ps : List Text) (files : Disk)
      → Distinct ps
      → Ended job ps files (process_all process_file ps files)
  unfolding process_all after_file
  process_all-Ended [] files distinct = inl (refl, tt)
  process_all-Ended (p ∷ ps) files (apart, distinct) =
      let written = (process_file p files).1 in
      let rest = process_all process_file ps written in
      let (keeps, ends) = step p files in
      let untouched_p = untouched ps written p apart in
      elim ends [
        | inl (e, known, why, same) ↦
            let as_before = process_all process_file ps files in
            let run : process_all process_file (p ∷ ps) files ≡ also_failed as_before =
              rw (same, known) refl in
            subst (Ended job (p ∷ ps) files) (sym run) (
              failed-Ended p ps files as_before (e, known, why, untouched ps files p apart)
                (process_all-Ended ps files distinct))
        | inr (inl (e, unknown, why, raised)) ↦
            inr (inr (e, unknown, rw (raised, unknown) refl, inl why))
        | inr (inr (a, fine, (t, u, read, turns, held))) ↦
            let run : process_all process_file (p ∷ ps) files ≡ rest = rw fine refl in
            subst (Ended job (p ∷ ps) files) (sym run) (
              done-Ended p ps files written rest keeps apart (t, u, read, turns, untouched_p ∙ held)
                (process_all-Ended ps written distinct))
      ]
