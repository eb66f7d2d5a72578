-- ===== src/Leads/Domains/Hosts.antt =====
-- What the host of a website and the domain of an address are, as they stand in the text.
use n8n_production_systems.Text.{Text, CharDb, codes, is_empty, starts_with}
use n8n_production_systems.Text.Strip.{strip}
use n8n_production_systems.Regex.{among}
use n8n_production_systems.Leads.Domains.{last_part, before, without_prefix, host_of}
use n8n_production_systems.Common.{
  ℕ, ◌≡◌, ◌≢◌, refl, true, false, [], ◌∷◌, ◌++◌, All, ◌==◌, Bool-cases, inl, inr, arith, ◌⊎◌, drop,
  length, ap, ◌∙◌, append_assoc,
}

-- A host names no path and no port.
abbrev pub IsHost : Text → Type 0
IsHost = All (λ c. (c ≢ b'/') × (c ≢ b':'))

-- `t` is `s` without the prefix, where it has it
abbrev pub Unprefixed : Text → Text → Text → Type 0
Unprefixed prefix s t = (s ≡ prefix ++ t) ⊎ ((s ≡ t) × (starts_with prefix s ≡ false))

-- `t` is the front of `s` up to a path or a port
abbrev pub Front : Text → Text → Type 0
Front s t =
    IsHost t
    × (rest : Text) × (s ≡ t ++ rest)
    × ((rest ≡ []) ⊎ ((c : ℕ) × (r : Text) × (rest ≡ c ∷ r) × ((c ≡ b'/') ⊎ (c ≡ b':'))))

-- `domain` is the host that the website names: its text in small letters, without the scheme, the
-- path, the port and `www.`
abbrev pub IsHostOf : CharDb → Text → Text → Type 0
IsHostOf chars website domain =
    (a : Text) × (b : Text) × (c : Text) × Unprefixed (codes "https://")
      (chars.lower (strip chars website)) a
    × Unprefixed (codes "http://") a b
    × Front b c
    × Unprefixed (codes "www.") c domain

-- `part` is what stands behind the last `@` of an address
abbrev pub IsDomainOf : Text → Text → Type 0
IsDomainOf address part =
    (among part b'@' ≡ false)
    × ((part ≡ address) ⊎ ((user : Text) × (address ≡ user ++ b'@' ∷ part)))

starts_with_split :
    (prefix s : Text) → starts_with prefix s ≡ true → s ≡ prefix ++ drop (length prefix) s
unfolding starts_with
starts_with_split [] s h = refl
starts_with_split (p ∷ ps) [] h = cc
starts_with_split (p ∷ ps) (c ∷ s) h = ground (arith, starts_with_split ps s)

without_prefix-Unprefixed : (prefix s : Text) → Unprefixed prefix s (without_prefix prefix s)
unfolding without_prefix
without_prefix-Unprefixed prefix s = elim (Bool-cases (starts_with prefix s)) [
  | inl there ↦ inl (rw there (starts_with_split prefix s there))
  | inr other ↦ inr (rw other refl, other)
]

pub empty_text : (s : Text) → is_empty s ≡ true → s ≡ []
empty_text [] h = refl
empty_text (c ∷ s) h = cc

before_split :
    (x : ℕ) (s : Text)
    → (rest : Text) × (s ≡ before x s ++ rest) × ((rest ≡ []) ⊎ ((r : Text) × (rest ≡ x ∷ r)))
unfolding before
before_split x [] = ([], refl, inl refl)
before_split x (c ∷ s) = elim (Bool-cases (c == x)) [
  | inl here ↦ (c ∷ s, rw here refl, inr (s, ground arith))
  | inr other ↦
      let (rest, split, ends) = before_split x s in (rest, rw other (ap (λ t. c ∷ t) split), ends)
]

All-before : (P : ℕ → Type 0) (separator : ℕ) (s : Text) → All P s → All P (before separator s)
unfolding before
All-before P separator [] h = tt
All-before P separator (c ∷ s) h = elim (Bool-cases (c == separator)) [
  | inl here ↦ rw here tt
  | inr other ↦ rw other (h.0, All-before P separator s h.1)
]

before-All : (separator : ℕ) (s : Text) → All (λ c. c ≢ separator) (before separator s)
unfolding before
before-All separator [] = tt
before-All separator (c ∷ s) = elim (Bool-cases (c == separator)) [
  | inl here ↦ rw here tt
  | inr other ↦ rw other (ground arith, before-All separator s)
]

All-both : (P Q : ℕ → Type 0) (s : Text) → All P s → All Q s → All (λ c. P c × Q c) s
All-both P Q [] p q = tt
All-both P Q (c ∷ s) p q = ((p.0, q.0), All-both P Q s p.1 q.1)

-- the front of an address
front : (s : Text) → Front s (before b':' (before b'/' s))
front s =
    let path = before b'/' s in
    let (behind, split, ends) = before_split b'/' s in
    let (port, split_port, ends_port) = before_split b':' path in
    let host : IsHost (before b':' path) =
      All-both (λ c. c ≢ b'/') (λ c. c ≢ b':') (before b':' path)
        (All-before (λ c. c ≢ b'/') b':' path (before-All b'/' s)) (before-All b':' path) in
    let whole : s ≡ before b':' path ++ (port ++ behind) =
      split ∙ ap (λ t. t ++ behind) split_port ∙ append_assoc (before b':' path) port behind in
    (
      host,
      port ++ behind,
      whole,
      elim ends_port [
        | inr (r, at_port) ↦ inr (b':', r ++ behind, rw at_port refl, inr refl)
        | inl no_port ↦ elim ends [
          | inl nothing ↦ inl (rw (no_port, nothing) refl)
          | inr (r, at_path) ↦ inr (b'/', r, rw (no_port, at_path) refl, inl refl)
        ]
      ],
    )

pub host_of-IsHostOf :
    (chars : CharDb) (website : Text) → IsHostOf chars website (host_of chars website)
unfolding host_of
host_of-IsHostOf chars website =
    let bare = chars.lower (strip chars website) in
    let a = without_prefix (codes "https://") bare in
    let b = without_prefix (codes "http://") a in
    let c = before b':' (before b'/' b) in
    (
      a,
      b,
      c,
      without_prefix-Unprefixed (codes "https://") bare,
      without_prefix-Unprefixed (codes "http://") a,
      front b,
      without_prefix-Unprefixed (codes "www.") c,
    )

pub last_part-IsDomainOf : (s : Text) → IsDomainOf s (last_part s)
unfolding last_part
last_part-IsDomainOf [] = (refl, inl refl)
last_part-IsDomainOf (c ∷ s) = elim (Bool-cases (among s b'@')) [
  | inl later ↦
      let (none_there, split) = last_part-IsDomainOf s in
      rw later (
        none_there,
        elim split [
          | inl whole ↦ absurd (ground (arith, later, none_there, whole))
          | inr (user, at) ↦ inr (c ∷ user, ap (λ t. c ∷ t) at)
        ],
      )
  | inr last ↦ elim (Bool-cases (c == b'@')) [
    | inl here ↦ rw (last, here) (last, inr ([], ground arith))
    | inr other ↦ rw (last, other) (rw (last, other) refl, inl refl)
  ]
]
