-- ===== src/Workflows/Snippets/Command/Written.antt =====
-- What the files of a run of the synchroniser hold at its end.
use n8n_production_systems.Json.{Json}
use n8n_production_systems.Text.{Text}
use n8n_production_systems.Workflows.Values.{Python}
use n8n_production_systems.Workflows.Snippets.Sync.{sync_document}
use n8n_production_systems.Workflows.Files.{
  Disk, Host, Arguments, read_text, load_json_text, dumps_stable, write_text, targets_of,
  process_all, is_reported,
}
use n8n_production_systems.Workflows.Files.Steps.{
  Distinct, IsStep, Job, Some, Turned, Stays, Fails, raised-IsStep, write_text-IsStep,
}
use n8n_production_systems.Workflows.Files.Steps.Run.{process_all-Ended}
use n8n_production_systems.Workflows.Snippets.Command.{
  code_of, synced_text, counted, store, process_file, process_targets, or_default, started, main,
}
use n8n_production_systems.Common.{
  ◌≡◌, refl, ◌⊎◌, inl, inr, ℕ, Bool, false, Option, some, List, ◌∷◌, Outcome, ok, raises,
  Outcome-cases, bind_ok, bind_raises, Exception, All, arith, ap, sym, ◌∙◌, subst,
}

module _ (py : Python) (snippets : Text → Option Text) (host : Host) where
  -- `updated` is the print of what the document that `text` reads as is synchronised to
  abbrev pub Syncs : Text → Text → Type 0
  Syncs text updated =
      (document : Json) × (out : Json) × (n : ℕ) × (load_json_text host text ≡ ok document)
      × (sync_document py snippets document ≡ ok (out, n))
      × (dumps_stable host out ≡ ok updated)

  synced_text-Syncs :
      (files : Disk) (path updated : Text) (n : ℕ)
      → synced_text py snippets host files path ≡ ok (updated, n)
      → (text : Text) × (read_text files path ≡ ok text) × Syncs text updated
  unfolding synced_text
  synced_text-Syncs files path updated n h =
      let (text, read, rest) = bind_ok (read_text files path) _ (updated, n) h in
      let (document, loaded, more) = bind_ok (load_json_text host text) _ (updated, n) rest in
      let ((out, k), synced, most) =
        bind_ok (sync_document py snippets document) _ (updated, n) more in
      let (new, printed, last) = bind_ok (dumps_stable host out) _ (updated, n) most in
      let same : new ≡ updated = ground arith in
      (text, read, (document, out, k, loaded, synced, printed ∙ ap ok same))

  -- The text is no document that can be read, the document is refused, or it cannot be printed.
  abbrev pub Refuses : Text → Exception → Type 0
  Refuses text e =
      (load_json_text host text ≡ raises e)
      ⊎ ((document : Json) × (load_json_text host text ≡ ok document)
          × (sync_document py snippets document ≡ raises e))
      ⊎ ((document : Json) × (out : Json) × (n : ℕ) × (load_json_text host text ≡ ok document)
          × (sync_document py snippets document ≡ ok (out, n))
          × (dumps_stable host out ≡ raises e))

  abbrev pub job : Job
  job = record { host = host; turns = Syncs; text_fails = Refuses }

  synced_text-Fails :
      (files : Disk) (path : Text) (e : Exception)
      → synced_text py snippets host files path ≡ raises e
      → Fails job path (read_text files path) e
  unfolding synced_text
  synced_text-Fails files path e h = elim (bind_raises (read_text files path) _ e h) [
    | inl missing ↦ inl missing
    | inr (text, read, rest) ↦ elim (bind_raises (load_json_text host text) _ e rest) [
      | inl unread ↦ inr (inl (text, read, inl unread))
      | inr (document, loaded, more) ↦
          elim (bind_raises (sync_document py snippets document) _ e more) [
            | inl refused ↦ inr (inl (text, read, inr (inl (document, loaded, refused))))
            | inr ((out, n), synced, most) ↦ elim (bind_raises (dumps_stable host out) _ e most) [
              | inl unprinted ↦
                  inr (inl (text, read, inr (inr (document, out, n, loaded, synced, unprinted))))
              | inr (new, printed, last) ↦ absurd (cc)
            ]
          ]
    ]
  ]

  -- the number of updated nodes goes with the result
  counted-IsStep :
      (path : Text) (files : Disk) (n : ℕ) (r : Outcome Bool × Disk)
      → IsStep job Bool path files r
      → IsStep job ℕ path files (counted py snippets host n r.0, r.1)
  unfolding counted
  counted-IsStep path files n r (keeps, inl (e, known, why, same)) =
      (keeps, inl (e, known, why, rw same refl))
  counted-IsStep path files n r (keeps, inr (inl (e, unknown, why, raised))) =
      (keeps, inr (inl (e, unknown, why, rw raised refl)))
  counted-IsStep path files n r (keeps, inr (inr (b, fine, turned))) =
      (keeps, inr (inr (n, rw fine refl, turned)))

  process_file-IsStep :
      (path : Text) (files : Disk)
      → IsStep job ℕ path files (process_file py snippets host path files)
  unfolding process_file store
  process_file-IsStep path files = elim (Outcome-cases (synced_text py snippets host files path)) [
    | inl (e, failed) ↦
        let same : process_file py snippets host path files ≡ (raises e, files) = rw failed refl in
        subst (IsStep job ℕ path files) (sym same)
          (raised-IsStep job ℕ path files e (synced_text-Fails files path e failed))
    | inr ((updated, n), fine) ↦
        let (text, read, syncs) = synced_text-Syncs files path updated n fine in
        let result = write_text host files path updated in
        let same : process_file py snippets host path files
            ≡ (counted py snippets host n result.0, result.1) =
          rw fine refl in
        subst (IsStep job ℕ path files) (sym same) (
          counted-IsStep path files n result
            (write_text-IsStep job path text updated files read syncs))
  ]

  -- A code of 0 and every file turned; a code of 1, where one or more files stay for a reason that is
  -- reported and the others are turned; or an exception that is not reported, which a file causes.
  abbrev pub Ended : List Text → Disk → Outcome ℕ × Disk → Type 0
  Ended paths start after =
      ((after.0 ≡ ok 0) × All (Turned job start after.1) paths)
      ⊎ ((after.0 ≡ ok 1)
          × All (λ p. Turned job start after.1 p ⊎ Stays job start after.1 p) paths
          × Some (Stays job start after.1) paths)
      ⊎ ((e : Exception) × (is_reported e ≡ false)
          × (after.0 ≡ raises e)
          × Some (λ p. Fails job p (read_text start p) e) paths)

  -- A run over distinct files, those that are given or else those of the repository, ends in one of
  -- three ways. With the code 0 each file holds, up to the ends of its lines, the print of what the
  -- document that the file held is synchronised to. With the code 1 one or more files could not be
  -- rewritten for a reason that is reported, and hold what they held, and each of the others holds
  -- that print. Otherwise the run is ended by an exception that is not reported, which comes from
  -- reading, synchronising, printing or writing one of the files.
  pub main-Syncs :
      (args : Arguments) (given : List Text) (path : Text) (paths : List Text) (files : Disk)
      → targets_of host args ≡ some given
      → or_default py snippets host given ≡ path ∷ paths
      → Distinct (path ∷ paths)
      → Ended (path ∷ paths) files (main py snippets host args files)
  unfolding main started process_targets code_of
  main-Syncs args given path paths files targets some_path distinct =
      let run = process_all (process_file py snippets host) (path ∷ paths) files in
      let same : main py snippets host args files ≡ (code_of run.0, run.1) =
        rw (targets, some_path) refl in
      subst (Ended (path ∷ paths) files) (sym same)
        (elim (process_all-Ended job (process_file py snippets host) process_file-IsStep
          (path ∷ paths) files distinct) [
            | inl (clean, all) ↦ inl (ap code_of clean, all)
            | inr (inl (failed, all, one)) ↦ inr (inl (ap code_of failed, all, one))
            | inr (inr (e, unknown, raised, one)) ↦ inr (inr (e, unknown, ap code_of raised, one))
          ])
