-- ===== src/Workflows/Sanitize/Command/Written.antt =====
-- What the files of a run of the sanitiser hold at its end.
use n8n_production_systems.Json.{Json}
use n8n_production_systems.Text.{Text, CharDb, text_eq}
use n8n_production_systems.Text.Equality.{text_eq_iff}
use n8n_production_systems.Workflows.Sanitize.{sanitize_document}
use n8n_production_systems.Workflows.Files.{
  Disk, Host, Arguments, read_text, load_json_text, dumps_stable, targets_of, process_all,
  is_reported,
}
use n8n_production_systems.Workflows.Files.Laws.{read_text-universal}
use n8n_production_systems.Workflows.Files.Steps.{
  Distinct, IsStep, Job, Some, Turned, Stays, Fails, raised-IsStep, write_text-IsStep,
}
use n8n_production_systems.Workflows.Files.Steps.Run.{process_all-Ended}
use n8n_production_systems.Workflows.Sanitize.Command.{
  Exit, exit_of, process_text, rewrite, process_read, process_file, process_targets, started, main,
}
use n8n_production_systems.Common.{
  ◌≡◌, refl, ◌⊎◌, inl, inr, Bool, false, Bool-cases, some, List, [], ◌∷◌, Outcome, ok, raises,
  Outcome-cases, bind_ok, bind_raises, Exception, All, ap, sym, ◌∙◌, subst,
}
use n8n_production_systems.Text.Lines.{universal}

module _ (chars : CharDb) (host : Host) where
  -- `updated` is the print of what the sanitiser gives for the document that `text` reads as
  abbrev pub Sanitizes : Text → Text → Type 0
  Sanitizes text updated =
      (value : Json) × (out : Json) × (load_json_text host text ≡ ok value)
      × (sanitize_document chars value ≡ ok out)
      × (dumps_stable host out ≡ ok updated)

  -- The text is no document that can be read, the document is refused, or it cannot be printed.
  abbrev pub Refuses : Text → Exception → Type 0
  Refuses text e =
      (load_json_text host text ≡ raises e)
      ⊎ ((value : Json) × (load_json_text host text ≡ ok value)
          × (sanitize_document chars value ≡ raises e))
      ⊎ ((value : Json) × (out : Json) × (load_json_text host text ≡ ok value)
          × (sanitize_document chars value ≡ ok out)
          × (dumps_stable host out ≡ raises e))

  abbrev pub job : Job
  job = record { host = host; turns = Sanitizes; text_fails = Refuses }

  process_text-Refuses :
      (text : Text) (e : Exception) → process_text chars host text ≡ raises e → Refuses text e
  unfolding process_text
  process_text-Refuses text e h = elim (bind_raises (load_json_text host text) _ e h) [
    | inl unread ↦ inl unread
    | inr (value, loaded, more) ↦ elim (bind_raises (sanitize_document chars value) _ e more) [
      | inl refused ↦ inr (inl (value, loaded, refused))
      | inr (out, sanitized, last) ↦ inr (inr (value, out, loaded, sanitized, last))
    ]
  ]

  process_text-Sanitizes :
      (text updated : Text) → process_text chars host text ≡ ok updated → Sanitizes text updated
  unfolding process_text
  process_text-Sanitizes text updated h =
      let (value, loaded, more) = bind_ok (load_json_text host text) _ updated h in
      let (out, sanitized, last) = bind_ok (sanitize_document chars value) _ updated more in
      (value, out, loaded, sanitized, last)

  rewrite-IsStep :
      (path : Text) (files : Disk) (original updated : Text)
      → read_text files path ≡ ok original
      → Sanitizes original updated
      → IsStep job Bool path files (rewrite chars host path files original (ok updated))
  unfolding rewrite
  rewrite-IsStep path files original updated read good =
      elim (Bool-cases (text_eq updated original)) [
        | inl same ↦
            let eq : updated ≡ original = (text_eq_iff updated original).0 same in
            let held : read_text files path ≡ ok (universal updated) =
              read
              ∙ ap ok (sym (read_text-universal files path original read))
              ∙ ap (λ t. ok (universal t)) (sym eq) in
            rw same
              (λ q other. refl, inr (inr (false, refl, (original, updated, read, good, held))))
        | inr differs ↦ rw differs (write_text-IsStep job path original updated files read good)
      ]

  process_file-IsStep :
      (path : Text) (files : Disk) → IsStep job Bool path files (process_file chars host path files)
  unfolding process_file process_read rewrite
  process_file-IsStep path files = elim (Outcome-cases (read_text files path)) [
    | inl (e, missing) ↦
        let same : process_file chars host path files ≡ (raises e, files) = rw missing refl in
        subst (IsStep job Bool path files) (sym same)
          (raised-IsStep job Bool path files e (inl missing))
    | inr (original, read) ↦ elim (Outcome-cases (process_text chars host original)) [
      | inl (e, failed) ↦
          let same : process_file chars host path files ≡ (raises e, files) =
            rw (read, failed) refl in
          subst (IsStep job Bool path files) (sym same) (
            raised-IsStep job Bool path files e
              (inr (inl (original, read, process_text-Refuses original e failed))))
      | inr (updated, fine) ↦
          let same : process_file chars host path files
              ≡ rewrite chars host path files original (ok updated) =
            rw (read, fine) refl in
          subst (IsStep job Bool path files) (sym same) (
            rewrite-IsStep path files original updated read
              (process_text-Sanitizes original updated fine))
    ]
  ]

  -- A code of 0 and every file turned; a code of 1, where one or more files stay for a reason that is
  -- reported and the others are turned; or an exception that is not reported, which a file causes.
  abbrev pub Ended : List Text → Disk → Outcome Exit × Disk → Type 0
  Ended paths start after =
      ((after.0 ≡ ok (record { code = 0; out = [] })) × All (Turned job start after.1) paths)
      ⊎ ((after.0 ≡ ok (record { code = 1; out = [] }))
          × All (λ p. Turned job start after.1 p ⊎ Stays job start after.1 p) paths
          × Some (Stays job start after.1) paths)
      ⊎ ((e : Exception) × (is_reported e ≡ false)
          × (after.0 ≡ raises e)
          × Some (λ p. Fails job p (read_text start p) e) paths)

  -- A run over distinct files ends in one of three ways. With the code 0 each file holds, up to the
  -- ends of its lines, the print of what the sanitiser gives for the document that the file held.
  -- With the code 1 one or more files could not be rewritten for a reason that is reported, and hold
  -- what they held, and each of the others holds that print. Otherwise the run is ended by an
  -- exception that is not reported, which comes from reading, sanitising, printing or writing one of
  -- the files.
  pub main-Sanitizes :
      (args : Arguments) (stdin path : Text) (paths : List Text) (files : Disk)
      → targets_of host args ≡ some (path ∷ paths)
      → Distinct (path ∷ paths)
      → Ended (path ∷ paths) files (main chars host args stdin files)
  unfolding main started process_targets exit_of
  main-Sanitizes args stdin path paths files targets distinct =
      let run = process_all (process_file chars host) (path ∷ paths) files in
      let same : main chars host args stdin files ≡ (exit_of run.0, run.1) = rw targets refl in
      subst (Ended (path ∷ paths) files) (sym same)
        (elim (process_all-Ended job (process_file chars host) process_file-IsStep (path ∷ paths)
          files distinct) [
            | inl (clean, all) ↦ inl (ap exit_of clean, all)
            | inr (inl (failed, all, one)) ↦ inr (inl (ap exit_of failed, all, one))
            | inr (inr (e, unknown, raised, one)) ↦ inr (inr (e, unknown, ap exit_of raised, one))
          ])
