-- ===== src/BasePath/Endpoint.antt =====
-- The URLs that the panel calls.
use mathlib.Core.Logic.{⊎_elim}
use tenancit.Base.{
  ℕ, ◌≡◌, ◌≢◌, ◌↔◌, ◌⊎◌, inl, inr, refl, sym, ap, ◌∙◌, subst, true, false, ◌||◌, trim, All,
  if◌then◌else◌, Bool, [], ◌∷◌, ◌++◌, arith, Option, none, some, Text, codes, text_eq, text_eq_iff,
  ◌==◌, ==_iff, Bool-cases, List, join,
}
use tenancit.Regex.Defs.{Lang, one_of, seq, alt, blank, matches}
use tenancit.Regex.Matching.{matches_iff}
use tenancit.Regex.Classes.{star_class_iff, Within}
use tenancit.BasePath.Defs.{
  Result, ok, throw, literal, anything, admin_endpoint_pattern, join_base, prefix_endpoint,
  build_admin_endpoint, read_runtime_base_path,
}
use tenancit.BasePath.Segments.{IsBasePath}
use tenancit.BasePath.Check.{IsBasePath-ne, read_runtime_base_path_iff}

literal_iff : (t u : Text) → Lang (literal t) u ↔ (u ≡ t)
unfolding literal
literal_iff [] u = (λ e. e, λ e. e)
literal_iff (c ∷ t) u = (
  λ (s, v, e, (d, one, same), rest).
      e ∙ ap (λ x. x ++ v) one ∙ rw ((==_iff d c).0 same, (literal_iff t v).0 rest),
  λ e. (c ∷ [], t, e, (c, refl, (==_iff c c).1 refl), (literal_iff t t).1 refl),
)

-- The end of a text, or a further segment or query.
abbrev pub IsBoundary : Text → Type 0
IsBoundary [] = Unit
IsBoundary (c ∷ _) = (c ≡ b'/') ⊎ (c ≡ b'?')

-- "/v1/admin" or "/v1/auth", then a boundary.
abbrev pub IsAdminEndpoint : Text → Type 0
IsAdminEndpoint e =
    (t : Text) × ((e ≡ codes "/v1/" ++ (codes "admin" ++ t))
      ⊎ (e ≡ codes "/v1/" ++ (codes "auth" ++ t)))
    × IsBoundary t

all_units : (s : Text) → Within (λ c. true) s
all_units [] = tt
all_units (c ∷ s) = (refl, all_units s)

is_mark_iff : (c : ℕ) → ((c == b'/' || c == b'?') ≡ true) ↔ ((c ≡ b'/') ⊎ (c ≡ b'?'))
is_mark_iff c = ground (arith, ==_iff c b'/', ==_iff c b'?')

one_first : (P : ℕ → Type 0) (c d : ℕ) (s a b : Text) → c ∷ s ≡ a ++ b → a ≡ d ∷ [] → P d → P c
one_first P c d s a b e one h =
    let whole : c ∷ s ≡ d ∷ b = e ∙ ap (λ x. x ++ b) one in
    let same : c ≡ d = cc in subst P (sym same) h

IsBoundary-iff :
    (t : Text)
    → Lang (alt (seq (one_of (λ c. c == b'/' || c == b'?')) anything) blank) t ↔ IsBoundary t
IsBoundary-iff [] = (λ _. tt, λ _. inr refl)
IsBoundary-iff (c ∷ s) = (
  ⊎_elim
      (λ (a, b, e, (d, one, h), _).
        one_first (λ x. (x ≡ b'/') ⊎ (x ≡ b'?')) c d s a b e one ((is_mark_iff d).0 h))
      (λ e. cc),
  λ h. inl (
    c ∷ [],
    s,
    refl,
    (c, refl, (is_mark_iff c).1 h),
    (star_class_iff (λ d. true) s).1 (all_units s),
  ),
)

IsAdminEndpoint-iff : (e : Text) → Lang admin_endpoint_pattern e ↔ IsAdminEndpoint e
IsAdminEndpoint-iff e = (
  λ (s, r, cut, v1, (w, t, cut2, kind, end)).
      let whole : e ≡ codes "/v1/" ++ (w ++ t) =
        cut ∙ rw ((literal_iff (codes "/v1/") s).0 v1, cut2) in
      (
        t,
        ⊎_elim
            (λ k.
              inl
                (whole ∙ ap (λ x. codes "/v1/" ++ (x ++ t)) ((literal_iff (codes "admin") w).0 k)))
            (λ k.
              inr (whole ∙ ap (λ x. codes "/v1/" ++ (x ++ t)) ((literal_iff (codes "auth") w).0 k)))
            kind,
        (IsBoundary-iff t).0 end,
      ),
  λ (t, kind, end).
      ⊎_elim
        (λ k. (
          codes "/v1/",
          codes "admin" ++ t,
          k,
          (literal_iff (codes "/v1/") _).1 refl,
          (
            codes "admin",
            t,
            refl,
            inl ((literal_iff (codes "admin") _).1 refl),
            (IsBoundary-iff t).1 end,
          ),
        ))
        (λ k. (
          codes "/v1/",
          codes "auth" ++ t,
          k,
          (literal_iff (codes "/v1/") _).1 refl,
          (
            codes "auth",
            t,
            refl,
            inr ((literal_iff (codes "auth") _).1 refl),
            (IsBoundary-iff t).1 end,
          ),
        ))
        kind,
)

-- A tab, a line feed or a carriage return, which a URL parser drops wherever it stands.
abbrev pub is_break : ℕ → Bool
is_break c = c == 9 || c == 10 || c == 13

-- What a URL parser reads of a text.
abbrev pub strip_breaks : Text → Text
strip_breaks [] = []
strip_breaks (c ∷ s) = let rest = strip_breaks s in if is_break c then rest else c ∷ rest

-- A path of the page's own host: as the URL parser reads it, neither "//" nor "/\\" opens it.
abbrev pub IsLocal : Text → Type 0
IsLocal u = (c : ℕ) × (r : Text) × (strip_breaks u ≡ b'/' ∷ c ∷ r) × (c ≢ b'/') × (c ≢ b'\\')

abbrev pub IsUnbroken : Text → Type 0
IsUnbroken s = All (λ c. is_break c ≡ false) s

-- The text of the meta element, if there is one, has no tab, line feed or carriage return inside.
abbrev pub IsUnbrokenContent : Option Text → Type 0
IsUnbrokenContent none = Unit
IsUnbrokenContent (some t) = IsUnbroken (trim t)

join_first : (c : ℕ) (w : Text) (ws : List Text) → (r : Text) × (join b'/' ((c ∷ w) ∷ ws) ≡ c ∷ r)
unfolding join
join_first c w [] = (w, refl)
join_first c w (v ∷ ws) = (w ++ (b'/' ∷ join b'/' (v ∷ ws)), refl)

IsBasePath-IsLocal : (b e : Text) → IsBasePath b → IsUnbroken b → IsLocal (b ++ e)
IsBasePath-IsLocal b e ([], ne, eq, h) unbroken = absurd (ne refl)
IsBasePath-IsLocal b e ([] ∷ ws, ne, eq, h) unbroken = absurd (h.0.0 refl)
IsBasePath-IsLocal b e ((c ∷ w) ∷ ws, ne, eq, h) unbroken =
    let (r, first) = join_first c w ws in
    let whole : b ≡ b'/' ∷ c ∷ r = rw (eq, first) refl in
    let kept = (subst IsUnbroken whole unbroken).1.0 in
    (
      c,
      strip_breaks (r ++ e),
      rw (whole, kept) refl,
      λ slash. cc (h.0.3.0.1, (==_iff c b'/').1 slash),
      λ mark. cc (h.0.3.0.0.2, (==_iff c b'\\').1 mark),
    )

IsAdminEndpoint-IsLocal : (e : Text) → IsAdminEndpoint e → IsLocal e
IsAdminEndpoint-IsLocal e (t, kind, end) =
    ⊎_elim
      (λ k.
        (b'v', codes "1/admin" ++ strip_breaks t, ap strip_breaks k, ground arith, ground arith))
      (λ k. (b'v', codes "1/auth" ++ strip_breaks t, ap strip_breaks k, ground arith, ground arith))
      kind

-- What the endpoint is put behind: nothing, or a base path.
abbrev pub IsPrefixed : Text → Text → Type 0
IsPrefixed e u = (u ≡ e) ⊎ ((b : Text) × IsBasePath b × (u ≡ b ++ e))

join_base_root : (e : Text) → join_base (codes "/") e ≡ e
unfolding join_base text_eq
join_base_root e = refl

join_base_below : (b e : Text) → IsBasePath b → join_base b e ≡ b ++ e
unfolding join_base
join_base_below b e h = elim (Bool-cases (text_eq b (codes "/"))) [
  | inl root ↦ absurd ((IsBasePath-ne b h).1 ((text_eq_iff b (codes "/")).0 root))
  | inr other ↦ rw other refl
]

read-IsPrefixed :
    (content : Option Text) (b e : Text)
    → read_runtime_base_path content ≡ ok b
    → IsPrefixed e (join_base b e)
unfolding read_runtime_base_path
read-IsPrefixed none b e h = let root : b ≡ codes "/" = cc in inl (rw root (join_base_root e))
read-IsPrefixed (some content) b e h =
    ⊎_elim (λ (_, root). inl (rw root (join_base_root e)))
      (λ (ib, same). inr (b, rw same ib, join_base_below b e (rw same ib)))
      ((read_runtime_base_path_iff content b).0 h)

prefix_endpoint-ok :
    (r : Result Text) (e u : Text)
    → prefix_endpoint r e ≡ ok u
    → (b : Text) × (r ≡ ok b) × (u ≡ join_base b e)
unfolding prefix_endpoint
prefix_endpoint-ok (throw x) e u h = cc
prefix_endpoint-ok (ok b) e u h = (b, refl, cc)

join_root-IsLocal : (b e : Text) → IsAdminEndpoint e → b ≡ codes "/" → IsLocal (join_base b e)
join_root-IsLocal b e good root =
    subst IsLocal (sym (ap (λ x. join_base x e) root ∙ join_base_root e))
      (IsAdminEndpoint-IsLocal e good)

read-IsLocal :
    (content : Option Text) (b e : Text)
    → IsUnbrokenContent content
    → IsAdminEndpoint e
    → read_runtime_base_path content ≡ ok b
    → IsLocal (join_base b e)
unfolding read_runtime_base_path
read-IsLocal none b e h good read = join_root-IsLocal b e good cc
read-IsLocal (some content) b e h good read =
    ⊎_elim (λ (_, root). join_root-IsLocal b e good root)
      (λ (ib, same).
        let base : IsBasePath b = rw same ib in
        subst IsLocal (sym (join_base_below b e base))
          (IsBasePath-IsLocal b e base (subst IsUnbroken (sym same) h)))
      ((read_runtime_base_path_iff content b).0 read)

-- The URL of a request is built only for an endpoint that is "/v1/admin" or "/v1/auth", at its
-- end or before a slash or a question mark. It is that endpoint, or the endpoint behind a
-- well-formed base path. When the base path has no tab, line feed or carriage return, the URL, read
-- as a URL parser reads it, opens with one slash that neither a slash nor a backslash follows, so
-- that it names a path of the page's own host.
pub build_admin_endpoint-safe :
    (endpoint url : Text) (content : Option Text)
    → build_admin_endpoint endpoint content ≡ ok url
    → IsUnbrokenContent content
    → IsAdminEndpoint endpoint × IsPrefixed endpoint url × IsLocal url
unfolding build_admin_endpoint
build_admin_endpoint-safe e u content h unbroken =
    elim (Bool-cases (matches admin_endpoint_pattern e)) [
      | inl hit ↦
          let good = (IsAdminEndpoint-iff e).0 ((matches_iff admin_endpoint_pattern e).0 hit) in
          let (b, base, same) =
            prefix_endpoint-ok (read_runtime_base_path content) e u (rw hit at h) in
          (
            good,
            subst (IsPrefixed e) (sym same) (read-IsPrefixed content b e base),
            subst IsLocal (sym same) (read-IsLocal content b e unbroken good base),
          )
      | inr miss ↦ cc (rw miss at h)
    ]

pub build_admin_endpoint-ok :
    (endpoint base : Text) (content : Option Text)
    → IsAdminEndpoint endpoint
    → read_runtime_base_path content ≡ ok base
    → build_admin_endpoint endpoint content ≡ ok (join_base base endpoint)
unfolding build_admin_endpoint prefix_endpoint
build_admin_endpoint-ok endpoint base content good read =
    let hit =
      (matches_iff admin_endpoint_pattern endpoint).1 ((IsAdminEndpoint-iff endpoint).1 good) in
    rw (hit, read) refl
