-- ===== src/Webhook/ToolServer/Laws.antt =====
-- What the defaults give a tool server, and what the checks let through.
use Prim.Native.Nat.{◌<◌}
use agent_runtime_operator.Base.{
  String, code, some, none, ◌<>◌, ◌≡◌, refl, ◌≢◌, ◌⊎◌, ◌↔◌, inl, inr, true, false, ◌||◌, Option, [],
  ◌==◌, eq_iff, arith, Bool-cases, is_some, if◌then◌else◌,
}
use agent_runtime_operator.Api.ToolServer.{ToolServer}
use agent_runtime_operator.Webhook.Fields.{ParsedUrl}
use agent_runtime_operator.Webhook.ToolServer.{
  is_over_http, apply_defaults, default_path, has_path, every_char, is_path_char, starts_with_slash,
  is_valid_path_format, validate_tool_server,
}

-- the first character is a slash
abbrev pub IsRooted : String → Type 0
IsRooted String.[] = ⊥
IsRooted (String.◌∷◌ c s) = code c ≡ b'/'

-- no control character, space, question mark or hash
abbrev pub IsClear : String → Type 0
IsClear String.[] = Unit
IsClear (String.◌∷◌ c s) =
    ((b' ' < code c) × (code c ≢ 0x7F) × (code c ≢ b'?') × (code c ≢ b'#')) × IsClear s

-- the paths that the check lets through
abbrev pub IsPath : (String → Option ParsedUrl) → String → Type 0
IsPath parse path =
    (path ≡ "")
    ⊎ (path ≡ "/")
    ⊎ (IsRooted path
        × IsClear path
        × ((u : ParsedUrl) × (parse ("http://example.com" <> path) ≡ some u) × (u.path ≡ path)))

starts_with_slash-IsRooted : (s : String) → (starts_with_slash s ≡ true) ↔ IsRooted s
starts_with_slash-IsRooted String.[] = (λ h. absurd (cc h), λ h. absurd h)
starts_with_slash-IsRooted (String.◌∷◌ c s) = (λ h. ground arith, λ h. ground arith)

every_char-IsClear : (s : String) → (every_char is_path_char s ≡ true) ↔ IsClear s
every_char-IsClear String.[] = (λ h. tt, λ h. refl)
every_char-IsClear (String.◌∷◌ c s) =
    let (to, from) = every_char-IsClear s in
    (
      λ h. (
        (ground arith, (λ e. ground arith), (λ e. ground arith), (λ e. ground arith)),
        to (ground arith),
      ),
      λ h. let ((above, no_delete, no_query, no_hash), clear) = h in ground (arith, from clear),
    )

has_path_iff :
    (parsed : Option ParsedUrl) (path : String)
    → (has_path parsed path ≡ true) ↔ ((u : ParsedUrl) × (parsed ≡ some u) × (u.path ≡ path))
has_path_iff none path = (λ h. absurd (cc h), λ (u, h, e). absurd (cc h))
has_path_iff (some u) path = (
  λ h. (u, refl, (eq_iff u.path path).0 h),
  λ (v, h, e). let same : u ≡ v = cc h in rw same ((eq_iff v.path path).1 e),
)

module _ (parse : String → Option ParsedUrl) where
  is_valid_path_format-cases :
      (path : String)
      → ((path == "" || path == "/" || is_valid_path_format parse path) ≡ true) ↔ IsPath parse path
  unfolding is_valid_path_format
  is_valid_path_format-cases path =
      let (rooted, rooted_of) = starts_with_slash-IsRooted path in
      let (clear, clear_of) = every_char-IsClear path in
      let (parsed, parsed_of) = has_path_iff (parse ("http://example.com" <> path)) path in
      (
        λ h. elim (Bool-cases (path == "")) [
          | inl unset ↦ inl ((eq_iff path "").0 unset)
          | inr set ↦ elim (Bool-cases (path == "/")) [
            | inl root ↦ inr (inl ((eq_iff path "/").0 root))
            | inr other ↦
                inr (inr (rooted (ground arith), clear (ground arith), parsed (ground arith)))
          ]
        ],
        λ p. elim p [
          | inl unset ↦ ground (arith, (eq_iff path "").1 unset)
          | inr (inl root) ↦ ground (arith, (eq_iff path "/").1 root)
          | inr (inr (a, b, c)) ↦ ground (arith, rooted_of a, clear_of b, parsed_of c)
        ],
      )

  -- The check of a tool server finds nothing if and only if its port is not 0 and its path is empty,
  -- or the root, or it starts with a slash, has no space, control character, question mark or hash,
  -- and http://example.com followed by it is parsed to a URL with this path.
  pub validate_tool_server-nil_iff :
      (t : ToolServer)
      → (validate_tool_server parse t ≡ []) ↔ ((t.spec.port ≢ 0) × IsPath parse t.spec.path)
  unfolding validate_tool_server
  validate_tool_server-nil_iff t =
      let path = t.spec.path in
      let (to, from) = is_valid_path_format-cases path in
      (
        λ h. (λ z. ground arith, to (ground arith)),
        λ h. let (port, p) = h in ground (arith, port, from p),
      )

  or_default_set : (s d : String) → (d == "") ≡ false → ((if s == "" then d else s) == "") ≡ false
  or_default_set s d h = elim (Bool-cases (s == "")) [
    | inl unset ↦ rw unset h
    | inr set ↦ rw set set
  ]

  default_path_set :
      (transport : String) → is_over_http transport ≡ true → (default_path transport == "") ≡ false
  default_path_set transport over = elim (Bool-cases (transport == "http")) [
    | inl http ↦ rw http refl
    | inr other ↦
        let over_sse : (transport == "sse") ≡ true = rw other at over in rw (other, over_sse) refl
  ]

  module _ (t : ToolServer) where
    apply_defaults-path :
        has_path (parse ("http://example.com" <> "/mcp")) "/mcp" ≡ true
        → has_path (parse ("http://example.com" <> "/sse")) "/sse" ≡ true
        → IsPath parse t.spec.path
        → IsPath parse (apply_defaults t).spec.path
    unfolding apply_defaults
    apply_defaults-path mcp sse valid = elim (Bool-cases (t.spec.path == "")) [
      | inr set ↦ rw set valid
      | inl unset ↦ rw unset (elim (Bool-cases (t.spec.transport_type == "http")) [
        | inl http ↦ rw http (
            inr (
              inr (
                (starts_with_slash-IsRooted "/mcp").0 refl,
                (every_char-IsClear "/mcp").0 refl,
                (has_path_iff (parse ("http://example.com" <> "/mcp")) "/mcp").0 mcp,
              )))
        | inr other ↦ rw other (elim (Bool-cases (t.spec.transport_type == "sse")) [
          | inl over_sse ↦ rw over_sse (
              inr (
                inr (
                  (starts_with_slash-IsRooted "/sse").0 refl,
                  (every_char-IsClear "/sse").0 refl,
                  (has_path_iff (parse ("http://example.com" <> "/sse")) "/sse").0 sse,
                )))
          | inr neither ↦ rw neither (inl refl)
        ])
      ])
    ]

    -- Let the URL parser give back the two default paths. A tool server over http or sse whose path
    -- is empty, or passes the check, passes the check once it has its defaults; it then has a path,
    -- a number of replicas and a protocol, and to apply the defaults again changes nothing.
    pub apply_defaults-admitted :
        has_path (parse ("http://example.com" <> "/mcp")) "/mcp" ≡ true
        → has_path (parse ("http://example.com" <> "/sse")) "/sse" ≡ true
        → is_over_http t.spec.transport_type ≡ true
        → IsPath parse t.spec.path
        → (validate_tool_server parse (apply_defaults t) ≡ [])
          × (((apply_defaults t).spec.path == "") ≡ false)
          × (is_some (apply_defaults t).spec.replicas ≡ true)
          × (((apply_defaults t).spec.protocol == "") ≡ false)
          × (apply_defaults (apply_defaults t) ≡ apply_defaults t)
    unfolding apply_defaults
    apply_defaults-admitted mcp sse over valid = (
      (validate_tool_server-nil_iff (apply_defaults t)).1
          ((λ z. ground arith), apply_defaults-path mcp sse valid),
      or_default_set t.spec.path (default_path t.spec.transport_type)
          (default_path_set t.spec.transport_type over),
      ground arith,
      or_default_set t.spec.protocol "mcp" refl,
      ground arith,
    )
