-- ===== src/Redirect/Advanced.antt =====
-- internal/redirect/advanced.go. Package text/template is the parameter `TemplatePackage`, package
-- regexp the parameter `RegexpPackage`.
use golink_url_shortener.Base.{
  if◌then◌else◌, length, Text, codes, is_empty, has_prefix, trim_space, ℕ, zero, suc, ◌-◌, Bool,
  false, not, ◌&&◌, Option, none, some, List, [], ◌∷◌,
}
use golink_url_shortener.Base.{Result, ok, err}
use golink_url_shortener.Links.Validate.{validate_target}
use golink_url_shortener.Links.Domains.{
  UrlPackage, DomainError, no_domain, check_advanced_link_domain,
}
use golink_url_shortener.Redirect.Simple.{
  ResolveError, template_parse, template_execution, invalid_result,
}

pub record TemplateVars : Type 0 where
  pub path : Text
  pub parts : List Text
  pub args : List Text
  pub ua : Text
  pub email : Text
  pub alias : Text

-- A value of the map that a template is executed with.
pub data Value : Type 0 where
  str : Text → Value
  strs : List Text → Value

abbrev pub Bindings : Type 0
Bindings = List (Text × Value)

-- Compiling a pattern (`none` is an error), re.MatchString, re.FindStringSubmatch (`[]` for nil)
-- and re.ReplaceAllString.
pub record RegexpPackage : Type 1 where
  pub Regexp : Type 0
  pub compile : Text → Option Regexp
  pub match_string : Regexp → Text → Bool
  pub find_submatch : Regexp → Text → List Text
  pub replace_all : Regexp → Text → Text → Text

-- The functions of the template's function map.
pub record Funcs : Type 0 where
  pub match : Text → Text → Bool
  pub extract : Text → Text → Text
  pub replace : Text → Text → Text → Text

-- Parsing with the functions registered, and executing; `none` is an error or a recovered panic.
pub record TemplatePackage : Type 1 where
  pub Template : Type 0
  pub parse : Funcs → Text → Option Template
  pub execute : Template → Bindings → Option Text

module _ (re : RegexpPackage) where
  unfoldable pub match_func : Text → Text → Bool
  match_func pattern s = elim (re.compile pattern) [ none ↦ false | some r ↦ re.match_string r s ]

  -- The first group of the first match: the element after the whole match.
  abbrev pub first_group : List Text → Text
  first_group [] = []
  first_group (whole ∷ []) = []
  first_group (whole ∷ group ∷ more) = group

  unfoldable pub extract_func : Text → Text → Text
  extract_func pattern s = elim (re.compile pattern) [
    | none ↦ []
    | some r ↦ first_group (re.find_submatch r s)
  ]

  unfoldable pub replace_func : Text → Text → Text → Text
  replace_func pattern repl s = elim (re.compile pattern) [
    | none ↦ s
    | some r ↦ re.replace_all r s repl
  ]

  unfoldable pub template_funcs : Funcs
  template_funcs = record { match = match_func; extract = extract_func; replace = replace_func }

unfoldable pub to_map : TemplateVars → Bindings
to_map v =
    (codes "path", str v.path)
    ∷ (codes "parts", strs v.parts)
    ∷ (codes "args", strs v.args)
    ∷ (codes "ua", str v.ua)
    ∷ (codes "email", str v.email)
    ∷ (codes "alias", str v.alias)
    ∷ []

abbrev pub zero_vars : TemplateVars
zero_vars = record { path = []; parts = []; args = []; ua = []; email = []; alias = [] }

-- strings.ReplaceAll(s, old, ""): `skip` characters of an occurrence are still to be dropped.
unfoldable pub remove_from : ℕ → Text → Text → Text
remove_from skip old [] = []
remove_from (suc skip) old (c ∷ s) = remove_from skip old s
remove_from zero old (c ∷ s) =
    let gone = remove_from (length old - 1) old s in
    let kept = remove_from 0 old s in if has_prefix (c ∷ s) old then gone else c ∷ kept

-- The text before the first occurrence of another, if there is one.
unfoldable pub before : Text → Text → Option Text
before sub [] = if is_empty sub then some [] else none
before sub (c ∷ s) =
    if has_prefix (c ∷ s) sub
    then some []
    else elim (before sub s) [ none ↦ none | some r ↦ some (c ∷ r) ]

module _ (re : RegexpPackage) (tmpl : TemplatePackage) where
  unfoldable pub parse_template : Text → Option tmpl.Template
  parse_template source = tmpl.parse (template_funcs re) source

  unfoldable pub execute_template : tmpl.Template → Bindings → Option Text
  execute_template t bindings = elim (tmpl.execute t bindings) [
    | none ↦ none
    | some out ↦ some (remove_from 0 (codes "<no value>") out)
  ]

  unfoldable pub resolve_advanced : Text → TemplateVars → Result ResolveError Text
  resolve_advanced source vars = elim (parse_template source) [
    | none ↦ err template_parse
    | some t ↦ elim (execute_template t (to_map vars)) [
      | none ↦ err template_execution
      | some raw ↦ elim (validate_target (trim_space raw)) [
        | some bad ↦ err invalid_result
        | none ↦ ok (trim_space raw)
      ]
    ]
  ]

  unfoldable pub validate_template : Text → Option ResolveError
  validate_template source = elim (parse_template source) [
    | none ↦ some template_parse
    | some t ↦ elim (execute_template t (to_map zero_vars)) [
      | none ↦ some template_execution
      | some raw ↦ none
    ]
  ]

module _ (url : UrlPackage) where
  -- The text before a template action is a URL with a host and something after the host.
  unfoldable pub is_static_url : Text → Bool
  is_static_url s = elim (url.parse s) [
    | none ↦ false
    | some u ↦
        not (is_empty (url.hostname u))
        && not (is_empty u.path && is_empty u.raw_query && is_empty u.fragment)
  ]

  unfoldable pub check_template_target_domain : Text → List Text → Option DomainError
  check_template_target_domain source [] = none
  check_template_target_domain source (d ∷ ds) = elim (before (codes "{{") source) [
    | none ↦ check_advanced_link_domain url (trim_space source) (d ∷ ds)
    | some head ↦
        if is_static_url (trim_space head)
        then check_advanced_link_domain url (trim_space head) (d ∷ ds)
        else some no_domain
  ]
