-- ===== src/Security.antt =====
-- security/__init__.py: what a command name, a URL and a request's origin must be.
use mcp_multiplex.Prelude.{
  ℕ, String, Bool, false, not, ◌&&◌, ◌||◌, List, [], ◌∷◌, Option, none, some, ◌<>◌, leb, eqb,
  truthy, truthy?, elem, codes, starts_with, ends_with,
}
use mcp_multiplex.Json.{Json}
use mcp_multiplex.Exec.{Result, ok, and_then, check, refuse_if, security_error}

abbrev pub hub_url_prefix : String
hub_url_prefix = "http://127.0.0.1:30000/servers/"

-- What `urllib.parse.urlsplit` returns: the attributes that the source reads. `port` raises a
-- ValueError where the port is no number.
pub record SplitUrl : Type 0 where
  pub scheme : String
  pub hostname : Option String
  pub username : Option String
  pub password : Option String
  pub port : Result (Option ℕ)
  pub path : String
  pub query : String
  pub fragment : String

-- The standard library's work on URLs and on the case of letters: `urlsplit`, which may raise a
-- ValueError; the query sorted by `urlencode(sorted(parse_qsl(…)))`; `urlunsplit` of a scheme, a
-- network location, a path and a query; `str.lower`; and `str` of a JSON value that is no text.
pub record Urls : Type 0 where
  pub split : String → Result SplitUrl
  pub sort_query : String → String
  pub unsplit : (scheme netloc path query : String) → String
  pub lower : String → String
  pub str : Json → String

-- `\s` of a pattern over texts
unfoldable pub is_space : ℕ → Bool
is_space c =
    (leb 9 c && leb c 13)
    || (leb 28 c && leb c 32)
    || eqb c 0x85
    || eqb c 0xa0
    || eqb c 0x1680
    || (leb 0x2000 c && leb c 0x200a)
    || eqb c 0x2028
    || eqb c 0x2029
    || eqb c 0x202f
    || eqb c 0x205f
    || eqb c 0x3000

abbrev pub mem : ℕ → List ℕ → Bool
mem c [] = false
mem c (d ∷ ds) = eqb c d || mem c ds

-- SHELL_META_PATTERN.search
unfoldable pub has_shell_meta : List ℕ → Bool
has_shell_meta [] = false
has_shell_meta (c ∷ s) = is_space c || mem c (codes ";&|`$<>(){}\\") || has_shell_meta s

unfoldable pub validate_command_name : Option String → String → Result (Option String)
validate_command_name none name = ok none
validate_command_name (some command) name =
    check (refuse_if (not (truthy command)) (security_error (name <> " is required"))) (
      check
        (refuse_if (has_shell_meta (codes command))
          (security_error (name <> " must be an executable name/path, not a shell string")))
        (ok (some command)))

unfoldable pub validate_http_url : Urls → Option String → String → Result (Option String)
validate_http_url u none name = ok none
validate_http_url u (some value) name = and_then (u.split value) λ parsed.
    check
      (refuse_if (not (elem (u.lower parsed.scheme) ("http" ∷ "https" ∷ [])))
        (security_error (name <> " must use http or https")))
      (check
        (refuse_if (not (truthy? parsed.hostname))
          (security_error (name <> " must include a host")))
        (check
          (refuse_if (truthy? parsed.username || truthy? parsed.password)
            (security_error (name <> " must not include credentials")))
          (check
            (refuse_if (truthy parsed.fragment)
              (security_error (name <> " must not include a fragment")))
            (ok (some value)))))

-- A request that a browser sent from an origin that is not allowed.
unfoldable pub validate_request_origin : Option String → List String → Result (Unit {0})
validate_request_origin none allowed = ok tt
validate_request_origin (some origin) allowed =
    refuse_if (truthy origin && not (elem origin allowed))
      (security_error ("browser origin is not allowed: " <> origin))

unfoldable pub is_hub_url : Option String → Bool
is_hub_url none = false
is_hub_url (some value) = starts_with value hub_url_prefix && ends_with value "/mcp"
