-- ===== src/Federated/Page/Fetched.antt =====
-- Which bodies get_thread_paginated of src/nntp/federated.rs fetches: every one that it needs, that
-- is not remembered as missing, and that a server has.
use september.Base.{
  ◌≡◌, ◌≢◌, ◌⊎◌, inl, inr, refl, sym, ap, ◌∙◌, Bool, true, none, some, Option, List, [], ◌∷◌, ◌++◌,
  String, str_eq, str_eq_refl, Map, lookup, insert, lookup-insert, eq_iff, arith, All, subst,
  Bool-cases, Option-cases,
}
use september.Federated.{NntpError, Result, ok, err, Cache}
use september.Federated.Articles.{found, search_servers, State, get_article}
use september.Federated.Lookup.{FirstAnswer, Search-cases, get_article-ok, get_article_cache_sound}
use september.Federated.Page.{cached_bodies, fetch_bodies, keep_body}
use september.Federated.Page.Bodies.{keep_body-other}
use september.Thread.{ArticleView}
use september.Thread.Ids.{is_member}

FirstAnswer-found :
    (before after : List (Result ArticleView NntpError)) (a : ArticleView) (last : Option NntpError)
    (flag : Bool)
    → All (λ r. (e : NntpError) × (r ≡ err e)) before
    → search_servers (before ++ ok a ∷ after) last flag ≡ found a
unfolding search_servers
FirstAnswer-found [] after a last flag fails = refl
FirstAnswer-found (err e ∷ before) after a last flag fails =
    FirstAnswer-found before after a _ _ fails.1
FirstAnswer-found (ok b ∷ before) after a last flag ((e, clash), fails) = absurd (cc)

search_servers-FirstAnswer :
    (answers : List (Result ArticleView NntpError)) (a : ArticleView)
    → FirstAnswer answers a
    → search_servers answers none true ≡ found a
search_servers-FirstAnswer answers a (before, after, split, fails) =
    rw split (FirstAnswer-found before after a none true fails)

FirstAnswer-unique :
    (answers : List (Result ArticleView NntpError)) (a b : ArticleView)
    → FirstAnswer answers a
    → FirstAnswer answers b
    → a ≡ b
FirstAnswer-unique answers a b first second =
    let same : found a ≡ found b =
      sym (search_servers-FirstAnswer answers a first)
      ∙ search_servers-FirstAnswer answers b second in
    cc

is_member-snoc :
    (id first : String) (ids : List String)
    → (str_eq first id ≡ true) ⊎ (is_member id ids ≡ true)
    → is_member id (ids ++ first ∷ []) ≡ true
is_member-snoc id first [] (inl h) = rw h refl
is_member-snoc id first [] (inr h) = cc
is_member-snoc id first (i ∷ ids) (inl h) = ground (arith, is_member-snoc id first ids (inl h))
is_member-snoc id first (i ∷ ids) (inr h) = elim (Bool-cases (str_eq i id)) [
  | inl same ↦ rw same refl
  | inr other ↦ rw other (is_member-snoc id first ids (inr (ground arith)))
]

module _ (articles : Cache ArticleView) (not_found : Cache (Unit {0})) where
  -- Every identifier of the page that the cache does not have is needed.
  pub cached_bodies-needed :
      (cache : articles.Store) (ids : List String) (bodies : Map ArticleView)
      (needed_ids : List String) (id : String)
      → articles.get cache id ≡ none
      → (is_member id ids ≡ true) ⊎ (is_member id needed_ids ≡ true)
      → is_member id (cached_bodies articles not_found cache ids bodies needed_ids).1 ≡ true
  unfolding cached_bodies
  cached_bodies-needed cache [] bodies needed_ids id miss (inl h) = cc
  cached_bodies-needed cache [] bodies needed_ids id miss (inr h) = h
  cached_bodies-needed cache (first ∷ ids) bodies needed_ids id miss h =
      elim (Option-cases (articles.get cache first)) [
        | inl absent ↦
            rw (absent, cached_bodies)
              (cached_bodies-needed cache ids bodies (needed_ids ++ first ∷ []) id miss (elim h [
                | inr n ↦ inr (is_member-snoc id first needed_ids (inr n))
                | inl m ↦ elim (Bool-cases (str_eq first id)) [
                  | inl same ↦ inr (is_member-snoc id first needed_ids (inl same))
                  | inr other ↦ inl (ground (arith, other))
                ]
              ]))
        | inr (b, hit) ↦
            rw (hit, cached_bodies)
              (cached_bodies-needed cache ids (insert first b bodies) needed_ids id miss (elim h [
                | inr n ↦ inr n
                | inl m ↦ elim (Bool-cases (str_eq first id)) [
                  | inl same ↦
                      let clash : some b ≡ none =
                        sym hit
                        ∙ subst (λ k. articles.get cache k ≡ none) (sym ((eq_iff first id).0 same))
                            miss in
                      absurd (cc)
                  | inr other ↦ inl (ground (arith, other))
                ]
              ]))
      ]

  -- The article is not remembered as missing, and no other article is cached in its place.
  abbrev pub CanFetch : State articles not_found → String → ArticleView → Type 0
  CanFetch s id a =
      ((b : ArticleView) → articles.get s.article_cache id ≡ some b → b ≡ a)
      × (not_found.get s.article_not_found_cache id ≡ none)

  get_article-CanFetch :
      (s : State articles not_found) (id : String) (answers : List (Result ArticleView NntpError))
      (a : ArticleView)
      → FirstAnswer answers a
      → CanFetch s id a
      → (get_article articles not_found s id answers).1 ≡ ok a
  unfolding get_article
  get_article-CanFetch s id answers a first (only, unknown) =
      elim (Option-cases (articles.get s.article_cache id)) [
        | inl miss ↦
            let run = search_servers-FirstAnswer answers a first in
            ground (arith, miss, unknown, run)
        | inr (b, hit) ↦ rw (hit, get_article) (ap ok (only b hit))
      ]

  -- A call for another article does not make this one be remembered as missing.
  get_article-unknown :
      (s : State articles not_found) (first id : String)
      (answers : List (Result ArticleView NntpError))
      → first ≢ id
      → not_found.get s.article_not_found_cache id ≡ none
      → not_found.get (get_article articles not_found s first answers).0.article_not_found_cache id
        ≡ none
  unfolding get_article
  get_article-unknown s first id answers differ unknown =
      elim (Option-cases (articles.get s.article_cache first)) [
        | inr (b, hit) ↦ rw (hit, get_article) unknown
        | inl miss ↦ elim (Option-cases (not_found.get s.article_not_found_cache first)) [
          | inr (u, known) ↦ rw (miss, known, get_article) unknown
          | inl fresh ↦ elim (Search-cases (search_servers answers none true)) [
            | inl (b, e) ↦ rw (miss, fresh, e, get_article) unknown
            | inr (inr (last, e)) ↦ rw (miss, fresh, e, get_article) unknown
            | inr (inl (last, e)) ↦
                rw (miss, fresh, e, get_article)
                  (elim (Option-cases
                    (not_found.get (not_found.insert s.article_not_found_cache first tt) id)) [
                      | inl none_there ↦ none_there
                      | inr (u, there) ↦
                          let older =
                            not_found.get-insert_ne s.article_not_found_cache first id tt u differ
                              there in
                          absurd (cc)
                    ])
          ]
        ]
      ]

  -- It can be fetched still after any call.
  get_article-keeps_CanFetch :
      (answers : String → List (Result ArticleView NntpError)) (s : State articles not_found)
      (first id : String) (a : ArticleView)
      → FirstAnswer (answers id) a
      → CanFetch s id a
      → CanFetch (get_article articles not_found s first (answers first)).0 id a
  get_article-keeps_CanFetch answers s first id a answered can = (
    λ b hit.
        get_article_cache_sound articles not_found (λ k w. id ≡ k → w ≡ a) s first (answers first)
          (λ k w h e. can.0 w (subst (λ j. articles.get s.article_cache j ≡ some w) (sym e) h))
          (λ w h e.
            FirstAnswer-unique (answers id) w a (subst (λ j. FirstAnswer (answers j) w) (sym e) h)
              answered)
          id b hit refl,
    elim (Bool-cases (str_eq first id)) [
      | inl same ↦
          subst
            (λ k.
              not_found.get
                (get_article articles not_found s k (answers k)).0.article_not_found_cache id
              ≡ none)
            (sym ((eq_iff first id).0 same))
            (ap (λ c. not_found.get c id)
                (get_article-ok articles not_found s id (answers id) a
                  (get_article-CanFetch s id (answers id) a answered can)).1
              ∙ can.1)
      | inr other ↦
          get_article-unknown s first id (answers first)
            (λ e. ground (arith, eq_iff first id, e, other)) can.1
    ],
  )

  fetched_now :
      (answers : String → List (Result ArticleView NntpError)) (s : State articles not_found)
      (bodies : Map ArticleView) (first id : String) (a : ArticleView)
      → FirstAnswer (answers id) a
      → CanFetch s id a
      → str_eq first id ≡ true
      → lookup id (
          keep_body articles not_found first
            (get_article articles not_found s first (answers first)).1
            bodies)
        ≡ some a
  unfolding keep_body
  fetched_now answers s bodies first id a answered can same =
      subst
        (λ k.
          lookup id (
            keep_body articles not_found k (get_article articles not_found s k (answers k)).1
              bodies)
          ≡ some a)
        (sym ((eq_iff first id).0 same))
        (rw (get_article-CanFetch s id (answers id) a answered can, keep_body)
          (rw (lookup-insert id id a bodies, str_eq_refl id) refl))

  -- Such an article is among the bodies after the fetches, if it is needed.
  pub fetch_bodies-answered :
      (answers : String → List (Result ArticleView NntpError)) (s : State articles not_found)
      (ids : List String) (bodies : Map ArticleView) (id : String) (a : ArticleView)
      → FirstAnswer (answers id) a
      → CanFetch s id a
      → (is_member id ids ≡ true) ⊎ (lookup id bodies ≡ some a)
      → lookup id (fetch_bodies articles not_found answers s ids bodies).1 ≡ some a
  unfolding fetch_bodies
  fetch_bodies-answered answers s [] bodies id a answered can (inl h) = cc
  fetch_bodies-answered answers s [] bodies id a answered can (inr h) = h
  fetch_bodies-answered answers s (first ∷ ids) bodies id a answered can h =
      let result = (get_article articles not_found s first (answers first)).1 in
      fetch_bodies-answered answers (get_article articles not_found s first (answers first)).0 ids
        (keep_body articles not_found first result bodies) id a answered
        (get_article-keeps_CanFetch answers s first id a answered can)
        (elim (Bool-cases (str_eq first id)) [
          | inl same ↦ inr (fetched_now answers s bodies first id a answered can same)
          | inr other ↦ elim h [
            | inl m ↦ inl (ground (arith, other))
            | inr k ↦ inr (keep_body-other articles not_found first id result bodies other ∙ k)
          ]
        ])
