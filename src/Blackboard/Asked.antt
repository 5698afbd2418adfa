-- ===== src/Blackboard/Asked.antt =====
-- What the filters of `getFacts` ask of a fact, independently of the tests that carry them out.
use agentmesh_mcp.Prelude.{
  ◌≡◌, refl, sym, ◌≤◌, ◌↔◌, true, Option, none, some, List, [], ◌∷◌, Text, text_eq, text_eq_iff,
  ◌==◌, ==_iff, leb, arith, and-true, All, Row, here, there, Bool-cases, inl, inr,
}
use mathlib.Core.Path.{subst}
use agentmesh_mcp.Schema.{Uuid, Date, BlackboardEntry}
use agentmesh_mcp.Blackboard.{
  GetFactsInput, is_live, contains_text, contains_all, in_namespace, has_key, has_tags, is_asked,
}

-- An optional filter asks nothing where it is not given.
abbrev pub When {ℓ κ} : {A : Type ℓ} → (A → Type κ) → Option A → Type κ
When P none = Unit
When P (some a) = P a

pub record IsAsked (p : Uuid) (input : GetFactsInput) (now : Date) (e : BlackboardEntry)
    : Type 0 where
  pub project : e.project_id ≡ p
  pub live : When (λ t. now ≤ t) e.expires_at
  pub namespaced : When (λ n. e.namespace ≡ n) input.namespace
  pub keyed : When (λ ks. Row e.key ks) input.keys
  pub tagged : When (λ ts. All (λ t. Row t e.tags) ts) input.tags

contains_text-Row : (ss : List Text) (t : Text) → contains_text ss t ≡ true → Row t ss
unfolding contains_text
contains_text-Row [] t h = absurd (ground arith)
contains_text-Row (s ∷ ss) t h = elim (Bool-cases (text_eq s t)) [
  | inl e ↦ subst (λ x. Row t (x ∷ ss)) (sym ((text_eq_iff s t).0 e)) here
  | inr e ↦ there (contains_text-Row ss t (ground (arith, e, h)))
]

Row-contains_text : (ss : List Text) (t : Text) → Row t ss → contains_text ss t ≡ true
unfolding contains_text
Row-contains_text [] t r = elim r [ ]
Row-contains_text (s ∷ ss) t here = let same = (text_eq_iff t t).1 refl in ground (arith, same)
Row-contains_text (s ∷ ss) t (there r) = let rest = Row-contains_text ss t r in ground (arith, rest)

contains_all-All : (tags ts : List Text) → contains_all tags ts ≡ true → All (λ t. Row t tags) ts
unfolding contains_all
contains_all-All tags [] h = tt
contains_all-All tags (t ∷ ts) h =
    let (one, rest) = and-true (contains_text tags t) (contains_all tags ts) h in
    (contains_text-Row tags t one, contains_all-All tags ts rest)

All-contains_all : (tags ts : List Text) → All (λ t. Row t tags) ts → contains_all tags ts ≡ true
unfolding contains_all
All-contains_all tags [] h = refl
All-contains_all tags (t ∷ ts) (one, rest) =
    let first = Row-contains_text tags t one in
    let others = All-contains_all tags ts rest in ground (arith, first, others)

live_iff :
    (now : Date) (o : Option Date)
    → ((elim o [ none ↦ true | some t ↦ leb now t ]) ≡ true) ↔ When (λ t. now ≤ t) o
live_iff now none = (λ h. tt, λ h. refl)
live_iff now (some t) = ground arith

in_namespace_iff :
    (o : Option Text) (e : BlackboardEntry)
    → (in_namespace o e ≡ true) ↔ When (λ n. e.namespace ≡ n) o
unfolding in_namespace
in_namespace_iff none e = (λ h. tt, λ h. refl)
in_namespace_iff (some n) e = text_eq_iff e.namespace n

has_key_iff :
    (o : Option (List Text)) (e : BlackboardEntry)
    → (has_key o e ≡ true) ↔ When (λ ks. Row e.key ks) o
unfolding has_key
has_key_iff none e = (λ h. tt, λ h. refl)
has_key_iff (some ks) e = (contains_text-Row ks e.key, Row-contains_text ks e.key)

has_tags_iff :
    (o : Option (List Text)) (e : BlackboardEntry)
    → (has_tags o e ≡ true) ↔ When (λ ts. All (λ t. Row t e.tags) ts) o
unfolding has_tags
has_tags_iff none e = (λ h. tt, λ h. refl)
has_tags_iff (some ts) e = (contains_all-All e.tags ts, All-contains_all e.tags ts)

pub is_asked_iff :
    (p : Uuid) (input : GetFactsInput) (now : Date) (e : BlackboardEntry)
    → (is_asked p input now e ≡ true) ↔ IsAsked p input now e
unfolding is_live
is_asked_iff p input now e = (
  λ h.
      let (own, h1) = and-true (e.project_id == p) _ h in
      let (live, h2) = and-true (is_live now e) _ h1 in
      let (named, h3) = and-true (in_namespace input.namespace e) _ h2 in
      let (key, tags) = and-true (has_key input.keys e) (has_tags input.tags e) h3 in
      record {
        project = (==_iff e.project_id p).0 own;
        live = (live_iff now e.expires_at).0 live;
        namespaced = (in_namespace_iff input.namespace e).0 named;
        keyed = (has_key_iff input.keys e).0 key;
        tagged = (has_tags_iff input.tags e).0 tags;
      },
  λ a. rw ((==_iff e.project_id p).1 a.project) (
      rw ((live_iff now e.expires_at).1 a.live) (
        rw ((in_namespace_iff input.namespace e).1 a.namespaced) (
          rw ((has_key_iff input.keys e).1 a.keyed)
            (rw ((has_tags_iff input.tags e).1 a.tagged) refl)))),
)
