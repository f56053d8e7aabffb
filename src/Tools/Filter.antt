-- ===== src/Tools/Filter.antt =====
-- src/agent/tool_filter.py: the tools that a planning prompt offers. A tool is its name, as far as the filter
-- looks at it.
use pearl_ai.Base.{
  String, ℕ, Bool, true, false, List, [], ◌∷◌, ◌++◌, codes, lower, has_infix, is_space, one_of,
  keep, is_empty, any, if◌then◌else◌, arith, not, ◌≡◌, Bool-cases, eq_iff, inl, inr, str_eq, subst,
  sym,
}

abbrev core : List String
core = "read_file" ∷ "list_directory" ∷ "search_text" ∷ "find_symbol" ∷ "execute_shell" ∷ []

abbrev pub Group : Type 0
Group = List String × List String

-- The keywords, and the tools that one of them unlocks.
abbrev groups : List Group
groups =
    (
      "create" ∷ "new file" ∷ "touch" ∷ "make file" ∷ "generate file" ∷ "write file" ∷ [],
      "create_file" ∷ "write_file" ∷ "append_file" ∷ "make_directory" ∷ [],
    )
    ∷ (
      "write" ∷ "save" ∷ "overwrite" ∷ "output" ∷ [],
      "write_file" ∷ "create_file" ∷ "append_file" ∷ [],
    )
    ∷ (
      "edit" ∷ "modify" ∷ "change" ∷ "update" ∷ "fix" ∷ "replace" ∷ "patch" ∷ [],
      "replace_in_file" ∷ "edit_lines" ∷ "patch_file" ∷ [],
    )
    ∷ ("append" ∷ [], "append_file" ∷ [])
    ∷ ("delete" ∷ "remove" ∷ " rm " ∷ [], "delete_file" ∷ [])
    ∷ (
      "ls" ∷ "list" ∷ "directory" ∷ "folder" ∷ "dir" ∷ [],
      "ls" ∷ "make_directory" ∷ "file_exists" ∷ "file_size" ∷ [],
    )
    ∷ ("exist" ∷ "size" ∷ "check file" ∷ [], "file_exists" ∷ "file_size" ∷ [])
    ∷ (
      "function" ∷ "def " ∷ "method" ∷ "class " ∷ "symbol" ∷ "reference" ∷ [],
      "find_function" ∷ "find_class" ∷ "find_method" ∷ "find_references" ∷ "find_symbol" ∷ [],
    )
    ∷ (
      "grep" ∷ "search code" ∷ "search for" ∷ "find in" ∷ "locate" ∷ "where is" ∷ [],
      "search_text" ∷ "find_symbol" ∷ "find_references" ∷ [],
    )
    ∷ (
      "explain" ∷ "understand" ∷ "purpose" ∷ "describe" ∷ "overview" ∷ "architecture" ∷ "what does"
          ∷ "how does" ∷ "summarize" ∷ [],
      "explain_file" ∷ "summarize_project" ∷ "index_repository" ∷ [],
    )
    ∷ (
      "refactor" ∷ "rename" ∷ "extract" ∷ "move symbol" ∷ [],
      "rename_symbol" ∷ "replace_function" ∷ "replace_class" ∷ "replace_method"
          ∷ "insert_after_symbol" ∷ "insert_before_symbol" ∷ "find_function" ∷ "find_class"
          ∷ "find_method" ∷ [],
    )
    ∷ ("batch" ∷ "multiple files" ∷ "many files" ∷ [], "batch_write_files" ∷ [])
    ∷ (
      "run" ∷ "execute" ∷ "test" ∷ "pytest" ∷ "pip" ∷ "install" ∷ "command" ∷ "terminal" ∷ "shell"
          ∷ "script" ∷ [],
      "execute_shell" ∷ "run_python" ∷ [],
    )
    ∷ ("python script" ∷ "run python" ∷ [], "run_python" ∷ [])
    ∷ ("pwd" ∷ "current directory" ∷ "working dir" ∷ [], "pwd" ∷ [])
    ∷ (
      "which" ∷ "is installed" ∷ "available" ∷ "command exists" ∷ [],
      "which" ∷ "is_command_available" ∷ "operating_system" ∷ "current_user" ∷ [],
    )
    ∷ (
      "git" ∷ "commit" ∷ "diff" ∷ "stage" ∷ "branch" ∷ "checkout" ∷ "history" ∷ "log" ∷ "revert"
          ∷ "stash" ∷ [],
      "git_status" ∷ "git_diff" ∷ "git_log" ∷ "git_commit" ∷ "git_stage" ∷ "git_create_branch"
          ∷ "git_restore" ∷ "git_blame" ∷ "summarize_changes" ∷ [],
    )
    ∷ ("blame" ∷ "who wrote" ∷ "when was added" ∷ [], "git_blame" ∷ [])
    ∷ (
      "web" ∷ "internet" ∷ "online" ∷ "documentation" ∷ "docs" ∷ "latest version"
          ∷ "current version" ∷ "external" ∷ "lookup" ∷ "google" ∷ "search online" ∷ [],
      "web_search" ∷ "web_fetch" ∷ "web_context" ∷ [],
    )
    ∷ []

abbrev fallback : List String
fallback =
    "read_file" ∷ "create_file" ∷ "write_file" ∷ "replace_in_file" ∷ "list_directory" ∷ "ls"
    ∷ "search_text" ∷ "find_symbol" ∷ "execute_shell" ∷ "git_status" ∷ "git_diff" ∷ []

-- `re.sub(r"\s+", " ", …)`; the flag says that the last character was white space.
unfoldable pub collapse : Bool → List ℕ → List ℕ
unfolding is_space
collapse spaced [] = []
collapse spaced (c ∷ cs) = elim (is_space c) [
  | true ↦ elim spaced [ true ↦ collapse true cs | false ↦ 32 ∷ collapse true cs ]
  | false ↦ c ∷ collapse false cs
]

-- `_normalise`
unfoldable pub normalise : String → List ℕ
unfolding lower collapse
normalise prompt = collapse false (lower (codes prompt))

-- The tools of the groups with a keyword in the prompt.
unfoldable pub unlocked : List ℕ → List Group → List String
unfolding has_infix
unlocked prompt [] = []
unlocked prompt ((keywords, names) ∷ rest) =
    let more = unlocked prompt rest in
    if any (λ k. has_infix (codes k) prompt) keywords then names ++ more else more

-- `selected`: beyond the core if a group unlocked a tool outside it.
unfoldable pub selected_names : List String → List String
selected_names names = if any (λ n. not (one_of n core)) names then core ++ names else fallback

-- `relevant_tools`
unfoldable pub relevant_tools {ℓ} : {T : Type ℓ} → (T → String) → String → List T → List T
unfolding normalise unlocked selected_names
relevant_tools name prompt tools =
    let selected = selected_names (unlocked (normalise prompt) groups) in
    let found = keep (λ t. one_of (name t) selected) tools in
    if is_empty found then tools else found

any-kept {ℓ} :
    {T : Type ℓ} (p q : T → Bool) (ts : List T)
    → ((t : T) → p t ≡ true → q t ≡ true)
    → any p ts ≡ true
    → any p (keep q ts) ≡ true
any-kept p q [] f h = h
any-kept p q (t ∷ ts) f h = ground (arith, any-kept p q ts f, f t, h)

one_of-left : (n : String) (xs ys : List String) → one_of n xs ≡ true → one_of n (xs ++ ys) ≡ true
one_of-left n [] ys h = cc h
one_of-left n (x ∷ xs) ys h = ground (arith, one_of-left n xs ys, h)

core-fallback : (n : String) → one_of n core ≡ true → one_of n fallback ≡ true
core-fallback n h = ground (arith, h)

selected_names-core :
    (n : String) (names : List String)
    → one_of n core ≡ true
    → one_of n (selected_names names) ≡ true
unfolding selected_names
selected_names-core n names h = elim (Bool-cases (any (λ m. not (one_of m core)) names)) [
  | inl b ↦ rw b (one_of-left n core names h)
  | inr b ↦ rw b (core-fallback n h)
]

-- A tool of the core that is there is offered, whatever the prompt says.
pub relevant_tools-core {ℓ} :
    {T : Type ℓ} (name : T → String) (prompt n : String) (tools : List T)
    → one_of n core ≡ true
    → any (λ t. str_eq (name t) n) tools ≡ true
    → any (λ t. str_eq (name t) n) (relevant_tools name prompt tools) ≡ true
unfolding relevant_tools
relevant_tools-core name prompt n tools h a =
    let selected = selected_names (unlocked (normalise prompt) groups) in
    let known = selected_names-core n (unlocked (normalise prompt) groups) h in
    let found = keep (λ t. one_of (name t) selected) tools in
    elim (Bool-cases (is_empty found)) [
      | inl b ↦ rw (b, relevant_tools) a
      | inr b ↦
          rw (b, relevant_tools)
            (any-kept (λ t. str_eq (name t) n) (λ t. one_of (name t) selected) tools
              (λ t e. subst (λ m. one_of m selected ≡ true) (sym ((eq_iff (name t) n).0 e)) known)
              a)
    ]
