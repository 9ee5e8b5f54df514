-- ===== src/Privacy.antt =====
-- internal/privacy/sanitizer.go: file paths and shell commands in coarse credential categories.
-- Every function here walks its text, so a text is the list of its runes.
pub mod Laws
pub mod Commands
use ai_engineering_productiv.Prelude.{
  ℕ, ◌+◌, Bool, true, false, ◌&&◌, ◌||◌, not, Option, none, some, List, [], ◌∷◌, ◌++◌, map, nat_eq,
  leb, ltb, if◌then◌else◌, any, keep, codes, is_space, codes_eq, has_prefix,
}

pub data PathClass : Type 0 where
  dotenv ssh_key cert credentials_file project_relative non_project : PathClass

pub data PathBoundary : Type 0 where
  project external indeterminate : PathBoundary

-- strings.TrimSpace on runes
unfoldable pub trim_start : List ℕ → List ℕ
trim_start [] = []
trim_start (c ∷ cs) = let rest = trim_start cs in if is_space c then rest else c ∷ cs

abbrev pub is_nil : List ℕ → Bool
is_nil [] = true
is_nil (c ∷ cs) = false

unfoldable pub trim_end : List ℕ → List ℕ
trim_end [] = []
trim_end (c ∷ cs) = let rest = trim_end cs in if is_space c && is_nil rest then [] else c ∷ rest

unfoldable pub trim : List ℕ → List ℕ
trim cs = trim_end (trim_start cs)

-- A set of texts, as the map literals of the source.
unfoldable pub one_of : List (List ℕ) → List ℕ → Bool
one_of names s = any (codes_eq s) names

abbrev home_config_segments : List (List ℕ)
home_config_segments =
    codes ".ssh"
    ∷ codes ".aws"
    ∷ codes ".gnupg"
    ∷ codes ".config"
    ∷ codes ".kube"
    ∷ codes ".docker"
    ∷ codes "gcloud"
    ∷ []

abbrev cert_extensions : List (List ℕ)
cert_extensions =
    codes ".pem" ∷ codes ".crt" ∷ codes ".cer" ∷ codes ".der" ∷ codes ".p12" ∷ codes ".pfx" ∷ []

abbrev pub env_template_suffixes : List (List ℕ)
env_template_suffixes = codes "example" ∷ codes "sample" ∷ codes "template" ∷ codes "dist" ∷ []

-- base[len(prefix):], where the base starts with the prefix
unfoldable pub after_prefix : List ℕ → List ℕ → Option (List ℕ)
after_prefix cs [] = some cs
after_prefix [] (p ∷ ps) = none
after_prefix (c ∷ cs) (p ∷ ps) = let rest = after_prefix cs ps in if nat_eq c p then rest else none

unfoldable pub is_dotenv_secret : List ℕ → Bool
is_dotenv_secret base =
    if codes_eq base (codes ".env") then true else elim (after_prefix base (codes ".env.")) [
      | none ↦ false
      | some suffix ↦ not (one_of env_template_suffixes suffix)
    ]

-- strings.Split(normalized, "/")
abbrev push_first : ℕ → List (List ℕ) → List (List ℕ)
push_first c [] = (c ∷ []) ∷ []
push_first c (s ∷ rest) = (c ∷ s) ∷ rest

unfoldable pub split_slash : List ℕ → List (List ℕ)
split_slash [] = [] ∷ []
split_slash (c ∷ cs) =
    let rest = split_slash cs in if nat_eq c b'/' then [] ∷ rest else push_first c rest

unfoldable pub path_segments : List ℕ → List (List ℕ)
path_segments normalized = keep (λ s. not (is_nil s)) (split_slash normalized)

-- The last segment, or the empty text.
unfoldable pub base_name : List (List ℕ) → List ℕ
base_name [] = []
base_name (s ∷ []) = s
base_name (s ∷ t ∷ rest) = base_name (t ∷ rest)

unfoldable pub has_segment : List (List ℕ) → List ℕ → Bool
has_segment segments target = any (λ s. codes_eq s target) segments

unfoldable pub is_ssh_key_name : List ℕ → Bool
is_ssh_key_name base =
    any (λ name. codes_eq base name || has_prefix base (name ++ codes "."))
      (codes "id_rsa" ∷ codes "id_dsa" ∷ codes "id_ecdsa" ∷ codes "id_ed25519" ∷ [])
    || codes_eq base (codes "known_hosts")
    || codes_eq base (codes "authorized_keys")

-- strings.Contains
unfoldable pub contains_runes : List ℕ → List ℕ → Bool
contains_runes [] part = has_prefix [] part
contains_runes (c ∷ cs) part = has_prefix (c ∷ cs) part || contains_runes cs part

unfoldable pub is_credentials_name : List ℕ → Bool
is_credentials_name base =
    contains_runes base (codes "credential")
    || one_of
        (codes ".netrc" ∷ codes "_netrc" ∷ codes ".pgpass" ∷ codes ".npmrc" ∷ codes ".pypirc" ∷ [])
        base

-- base[strings.LastIndex(base, "."):], where there is a dot
unfoldable pub from_last_dot : List ℕ → Option (List ℕ)
from_last_dot [] = none
from_last_dot (c ∷ cs) = elim (from_last_dot cs) [
  | some ext ↦ some ext
  | none ↦ if nat_eq c b'.' then some (c ∷ cs) else none
]

unfoldable pub has_cert_extension : List ℕ → Bool
has_cert_extension base = elim (from_last_dot base) [
  | none ↦ false
  | some ext ↦ one_of cert_extensions ext
]

-- A drive letter and a colon.
unfoldable pub has_drive : List ℕ → Bool
has_drive (c ∷ d ∷ cs) = nat_eq d b':' && leb b'a' c && leb c b'z'
has_drive _ = false

unfoldable pub is_absolute_path : List ℕ → Bool
is_absolute_path normalized = has_prefix normalized (codes "/") || has_drive normalized

unfoldable pub classify_boundary : List ℕ → List (List ℕ) → PathBoundary
classify_boundary normalized segments =
    if not (has_prefix normalized (codes "~")) && not (is_absolute_path normalized)
    then project
    else if has_prefix normalized (codes "~")
    then external
    else if any (one_of home_config_segments) segments
    then external
    else indeterminate

-- The `switch` of ClassifyPath.
unfoldable pub classify_name : List (List ℕ) → List ℕ → PathBoundary → PathClass
classify_name segments base boundary =
    if has_segment segments (codes ".ssh") || is_ssh_key_name base
    then ssh_key
    else if has_cert_extension base
    then cert
    else if is_credentials_name base || has_segment segments (codes ".aws")
    then credentials_file
    else if is_dotenv_secret base
    then dotenv
    else elim boundary [ project ↦ project_relative | _ ↦ non_project ]

unfoldable pub classify_normalized : List ℕ → PathClass × PathBoundary
classify_normalized normalized =
    let segments = path_segments normalized in
    let boundary = classify_boundary normalized segments in
    (classify_name segments (base_name segments) boundary, boundary)

-- The characters at which a command line is cut into tokens.
unfoldable pub is_separator : ℕ → Bool
is_separator c = any (nat_eq c) (codes " \t\n\r\"'()[]{}<>|&;,=`")

-- strings.FieldsFunc: `word` is the token that is being read, reversed.
unfoldable pub close_word : List ℕ → List (List ℕ) → List (List ℕ)
close_word [] rest = rest
close_word (c ∷ cs) rest = (c ∷ cs) ∷ rest

unfoldable pub split_words : List ℕ → List ℕ → List (List ℕ)
split_words word [] = close_word word []
split_words word (c ∷ cs) =
    let closed = close_word word (split_words [] cs) in
    let longer = split_words (word ++ c ∷ []) cs in if is_separator c then closed else longer

unfoldable pub command_split : List ℕ → List (List ℕ)
command_split raw = split_words [] raw

unfoldable pub is_secret_class : PathClass → Bool
is_secret_class dotenv = true
is_secret_class ssh_key = true
is_secret_class cert = true
is_secret_class credentials_file = true
is_secret_class project_relative = false
is_secret_class non_project = false

pub data CommandAccessClass : Type 0 where
  credential_access no_access : CommandAccessClass

-- unicode.ToLower outside ASCII is the argument.
module _ (unicode_lower : ℕ → ℕ) where
  unfoldable pub to_lower : ℕ → ℕ
  to_lower c =
      if ltb c 128 then (if leb b'A' c && leb c b'Z' then c + 32 else c) else unicode_lower c

  -- A backslash becomes a slash, then the case goes.
  unfoldable pub normal_rune : ℕ → ℕ
  normal_rune c = to_lower (if nat_eq c 92 then b'/' else c)

  -- ClassifyPath
  unfoldable pub classify_path : List ℕ → PathClass × PathBoundary
  classify_path raw =
      let cleaned = trim raw in
      if is_nil cleaned
      then (non_project, indeterminate)
      else classify_normalized (map normal_rune cleaned)

  -- The loop of ClassifyCommandAccess over the tokens.
  unfoldable pub first_secret : List (List ℕ) → CommandAccessClass × PathBoundary
  first_secret [] = (no_access, indeterminate)
  first_secret (token ∷ rest) =
      let (class, boundary) = classify_path token in
      let later = first_secret rest in
      if is_secret_class class then (credential_access, boundary) else later

  -- ClassifyCommandAccess
  unfoldable pub classify_command_access : List ℕ → CommandAccessClass × PathBoundary
  classify_command_access raw =
      if is_nil (trim raw) then (no_access, indeterminate) else first_secret (command_split raw)
