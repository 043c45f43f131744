-- ===== src/Web/Markdown.antt =====
-- internal/web/markdown.go: goldmark and the policy of bluemonday are parameters.
use revolution.Prelude.{
  ℕ, Text, codes, ◌≡◌, Bool, true, false, ◌||◌, Option, none, some, [], ◌∷◌, ◌++◌, ◌==◌,
  if◌then◌else◌, All,
}

pub record Renderer : Type 0 where
  -- `markdownRenderer.Convert`; nothing for an error
  pub convert : Text → Option Text
  -- `sanitizePolicy.SanitizeBytes`
  pub sanitize : Text → Text

-- `template.HTMLEscapeString`
abbrev pub escape_char : ℕ → Text
escape_char c =
    if c == 0
    then 0xfffd ∷ []
    else if c == b'"'
    then codes "&#34;"
    else if c == b'&'
    then codes "&amp;"
    else if c == 39
    then codes "&#39;"
    else if c == b'<'
    then codes "&lt;"
    else if c == b'>'
    then codes "&gt;"
    else c ∷ []

abbrev pub escape_html : Text → Text
escape_html [] = []
escape_html (c ∷ cs) = escape_char c ++ escape_html cs

module _ (r : Renderer) where
  abbrev pub safe : Text → Option Text → Text
  safe md none = escape_html md
  safe md (some html) = r.sanitize html

  unfoldable pub render_description : Text → Text
  render_description md = safe md (r.convert md)

-- No character that can begin a tag or end an attribute.
abbrev pub is_inert : ℕ → Bool
is_inert c = if c == b'<' || c == b'>' || c == b'"' || c == 39 then false else true

abbrev pub IsInert : Text → Type 0
IsInert = All (λ c. is_inert c ≡ true)
