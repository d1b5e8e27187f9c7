-- ===== src/Federated/Lookup.antt =====
-- What get_article answers and what its caches hold.
use september.Base.{
  ◌≡◌, ◌↔◌, ◌⊎◌, inl, inr, refl, sym, ap, subst, ◌∙◌, Bool, true, false, Option, none, some, List,
  [], ◌∷◌, ◌++◌, String, str_eq, eq_iff, arith, All, Bool-cases, Option-cases,
}
use september.Federated.{NntpError, article_not_found, Result, ok, err, Cache, is_not_found_error}
use september.Federated.Articles.{Search, found, missing, search_servers, State, get_article}
use september.Thread.{ArticleView}

-- Every server answers that it does not have the article.
abbrev pub AllNotFound : List (Result ArticleView NntpError) → Type 0
AllNotFound = All λ r. (e : NntpError) × (r ≡ err e) × (is_not_found_error e ≡ true)

-- The article is the first success, all servers before it having failed.
abbrev pub FirstAnswer : List (Result ArticleView NntpError) → ArticleView → Type 0
FirstAnswer answers a =
    (before : List (Result ArticleView NntpError)) × (after : List (Result ArticleView NntpError))
    × (answers ≡ before ++ ok a ∷ after)
    × All (λ r. (e : NntpError) × (r ≡ err e)) before

search_servers-found :
    (answers : List (Result ArticleView NntpError)) (last : Option NntpError) (flag : Bool)
    (a : ArticleView)
    → search_servers answers last flag ≡ found a
    → FirstAnswer answers a
unfolding search_servers
search_servers-found [] last flag a h = cc
search_servers-found (ok b ∷ answers) last flag a h =
    let same : b ≡ a = cc in ([], answers, ap (λ x. ok x ∷ answers) same, tt)
search_servers-found (err e ∷ answers) last flag a h =
    let (before, after, split, fails) = search_servers-found answers _ _ a h in
    (err e ∷ before, after, ap (◌∷◌ (err e)) split, ((e, refl), fails))

search_servers-none_missing :
    (answers : List (Result ArticleView NntpError)) (last last' : Option NntpError) (flag : Bool)
    → search_servers answers last flag ≡ missing last' true
    → AllNotFound answers × (flag ≡ true)
unfolding search_servers
search_servers-none_missing [] last last' flag h = (tt, cc)
search_servers-none_missing (ok b ∷ answers) last last' flag h = cc
search_servers-none_missing (err e ∷ answers) last last' flag h =
    let (rest, kept) = search_servers-none_missing answers (some e) last' _ h in
    elim (Bool-cases (is_not_found_error e)) [
      | inl gone ↦ (((e, refl, gone), rest), ground arith)
      | inr other ↦ absurd (ground arith)
    ]

search_servers-AllNotFound :
    (answers : List (Result ArticleView NntpError)) (last : Option NntpError)
    → AllNotFound answers
    → (last' : Option NntpError) × (search_servers answers last true ≡ missing last' true)
unfolding search_servers
search_servers-AllNotFound [] last h = (last, refl)
search_servers-AllNotFound (ok b ∷ answers) last h =
    let clash : ◌≡◌ {A = Result ArticleView NntpError} (ok b) (err h.0.0) = h.0.1 in absurd (cc)
search_servers-AllNotFound (err e ∷ answers) last h =
    let (last', run) = search_servers-AllNotFound answers (some e) h.1 in
    let same : ◌≡◌ {A = Result ArticleView NntpError} (err e) (err h.0.0) = h.0.1 in
    let gone : is_not_found_error e ≡ true = ground (arith, h.0.2) in (last', rw gone run)

pub Search-cases :
    (r : Search)
    → ((a : ArticleView) × (r ≡ found a))
      ⊎ (((last : Option NntpError) × (r ≡ missing last true))
          ⊎ ((last : Option NntpError) × (r ≡ missing last false)))
Search-cases (found a) = inl (a, refl)
Search-cases (missing last true) = inr (inl (last, refl))
Search-cases (missing last false) = inr (inr (last, refl))

module _ (articles : Cache ArticleView) (not_found : Cache (Unit {0})) where
  -- When neither cache knows the article, the answer is "article not found" exactly if every server
  -- answers so.
  pub get_article-not_found :
      (s : State articles not_found) (id : String) (answers : List (Result ArticleView NntpError))
      → articles.get s.article_cache id ≡ none
      → not_found.get s.article_not_found_cache id ≡ none
      → ((get_article articles not_found s id answers).1 ≡ err (article_not_found id))
        ↔ AllNotFound answers
  unfolding get_article
  get_article-not_found s id answers miss unknown = (there, back)
    where
      there :
          (get_article articles not_found s id answers).1 ≡ err (article_not_found id)
          → AllNotFound answers
      there h = elim (Search-cases (search_servers answers none true)) [
        | inl (a, e) ↦ absurd (ground (arith, miss, unknown, e))
        | inr (inl (last, e)) ↦ (search_servers-none_missing answers none last true e).0
        | inr (inr (last, e)) ↦ absurd (ground (arith, miss, unknown, e))
      ]

      back :
          AllNotFound answers
          → (get_article articles not_found s id answers).1 ≡ err (article_not_found id)
      back h =
          let (last', run) = search_servers-AllNotFound answers none h in
          ground (arith, miss, unknown, run)

  -- An article that is answered comes from the article cache, or is the first success of the
  -- servers in priority order; in both cases nothing is remembered as missing.
  pub get_article-ok :
      (s : State articles not_found) (id : String) (answers : List (Result ArticleView NntpError))
      (a : ArticleView)
      → (get_article articles not_found s id answers).1 ≡ ok a
      → ((articles.get s.article_cache id ≡ some a) ⊎ FirstAnswer answers a)
        × ((get_article articles not_found s id answers).0.article_not_found_cache
            ≡ s.article_not_found_cache)
  unfolding get_article
  get_article-ok s id answers a h = elim (Option-cases (articles.get s.article_cache id)) [
    | inr (b, hit) ↦ (inl (ground (arith, hit)), ground (arith, hit))
    | inl miss ↦ elim (Option-cases (not_found.get s.article_not_found_cache id)) [
      | inr (u, known) ↦ absurd (ground (arith, miss, known))
      | inl unknown ↦ elim (Search-cases (search_servers answers none true)) [
        | inl (b, e) ↦
            let same : b ≡ a = ground (arith, miss, unknown, e) in
            (
              inr (search_servers-found answers none true a (e ∙ ap found same)),
              ground (arith, miss, unknown, e),
            )
        | inr (inl (last, e)) ↦ absurd (ground (arith, miss, unknown, e))
        | inr (inr (last, e)) ↦ absurd (ground (arith, miss, unknown, e))
      ]
    ]
  ]

  -- A transient failure is not remembered: if some server fails with another error than "not
  -- found", the article is not remembered as missing.
  pub get_article_transient :
      (s : State articles not_found) (id : String) (answers : List (Result ArticleView NntpError))
      → ¬ AllNotFound answers
      → (get_article articles not_found s id answers).0.article_not_found_cache
        ≡ s.article_not_found_cache
  unfolding get_article
  get_article_transient s id answers mixed = elim (Option-cases (articles.get s.article_cache id)) [
    | inr (b, hit) ↦ ground (arith, hit)
    | inl miss ↦ elim (Option-cases (not_found.get s.article_not_found_cache id)) [
      | inr (u, known) ↦ ground (arith, miss, known)
      | inl unknown ↦ elim (Search-cases (search_servers answers none true)) [
        | inl (b, e) ↦ ground (arith, miss, unknown, e)
        | inr (inl (last, e)) ↦
            absurd (mixed (search_servers-none_missing answers none last true e).0)
        | inr (inr (last, e)) ↦ ground (arith, miss, unknown, e)
      ]
    ]
  ]

  insert_keeps :
      (P : String → ArticleView → Type 0) (store : articles.Store) (id : String) (a : ArticleView)
      → ((k : String) (w : ArticleView) → articles.get store k ≡ some w → P k w)
      → P id a
      → (k : String) (w : ArticleView) → articles.get (articles.insert store id a) k ≡ some w
      → P k w
  insert_keeps P store id a all new k w h = elim (Bool-cases (str_eq id k)) [
    | inl same ↦
        let key : id ≡ k = (eq_iff id k).0 same in
        let value : a ≡ w = sym (
          articles.get-insert_self store id a w
            (subst (λ j. articles.get (articles.insert store id a) j ≡ some w) (sym key) h)) in
        subst (λ j. P j w) key (subst (P id) value new)
    | inr other ↦
        all k w (articles.get-insert_ne store id k a w (λ e. ground (arith, eq_iff id k)) h)
  ]

  -- The article cache holds nothing that no server answered: a property of identifiers and articles
  -- that holds of the cached ones and of the servers' first answer holds of the cached ones after
  -- the call.
  pub get_article_cache_sound :
      (P : String → ArticleView → Type 0) (s : State articles not_found) (id : String)
      (answers : List (Result ArticleView NntpError))
      → ((k : String) (w : ArticleView) → articles.get s.article_cache k ≡ some w → P k w)
      → ((a : ArticleView) → FirstAnswer answers a → P id a)
      → (k : String) (w : ArticleView)
      → articles.get (get_article articles not_found s id answers).0.article_cache k ≡ some w
      → P k w
  unfolding get_article
  get_article_cache_sound P s id answers all new k w =
      elim (Option-cases (articles.get s.article_cache id)) [
        | inr (b, hit) ↦ kept (ground (arith, hit))
        | inl miss ↦ elim (Option-cases (not_found.get s.article_not_found_cache id)) [
          | inr (u, known) ↦ kept (ground (arith, miss, known))
          | inl unknown ↦ elim (Search-cases (search_servers answers none true)) [
            | inl (a, e) ↦
                let grown : after ≡ articles.insert s.article_cache id a =
                  ground (arith, miss, unknown, e) in
                rw grown (
                  insert_keeps P s.article_cache id a all
                    (new a (search_servers-found answers none true a e)) k w)
            | inr (inl (last, e)) ↦ kept (ground (arith, miss, unknown, e))
            | inr (inr (last, e)) ↦ kept (ground (arith, miss, unknown, e))
          ]
        ]
      ]
    where
      after : articles.Store
      after = (get_article articles not_found s id answers).0.article_cache

      kept : after ≡ s.article_cache → articles.get after k ≡ some w → P k w
      kept e = subst (λ c. articles.get c k ≡ some w → P k w) (sym e) (all k w)
