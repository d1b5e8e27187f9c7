-- ===== src/Federated/Page/Bodies.antt =====
-- The bodies that get_thread_paginated of src/nntp/federated.rs collects for a page.
use september.Base.{
  ◌≡◌, ◌⊎◌, inl, inr, refl, sym, ◌∙◌, true, false, none, some, List, [], ◌∷◌, ◌++◌, String, str_eq,
  Map, lookup, insert, lookup-insert, eq_iff, arith, All, All-append, subst, Bool-cases,
  Option-cases,
}
use september.Federated.{NntpError, AppError, Result, ok, err, Cache}
use september.Federated.Articles.{State, get_article}
use september.Federated.Lookup.{FirstAnswer, get_article-ok, get_article_cache_sound}
use september.Federated.Page.{cached_bodies, fetch_bodies, keep_body}
use september.Thread.{ArticleView}
use september.Thread.Ids.{is_member}

result_of :
    (r : Result ArticleView AppError)
    → ((a : ArticleView) × (r ≡ ok a)) ⊎ ((e : AppError) × (r ≡ err e))
result_of (ok a) = inl (a, refl)
result_of (err e) = inr (e, refl)

module _ (articles : Cache ArticleView) (not_found : Cache (Unit {0})) where
  module _ (P : String → ArticleView → Type 0) where
    abbrev pub AllHold : Map ArticleView → Type 0
    AllHold bodies = (id : String) (a : ArticleView) → lookup id bodies ≡ some a → P id a

    AllHold-insert :
        (id : String) (a : ArticleView) (bodies : Map ArticleView)
        → P id a
        → AllHold bodies
        → AllHold (insert id a bodies)
    AllHold-insert id a bodies new all key b h = elim (Bool-cases (str_eq id key)) [
      | inl same ↦
          let value : a ≡ b = ground (arith, lookup-insert id key a bodies, h, same) in
          subst (λ k. P k b) ((eq_iff id key).0 same) (subst (P id) value new)
      | inr other ↦ all key b (ground (arith, lookup-insert id key a bodies, h, other))
    ]

    pub cached_bodies-AllHold :
        (cache : articles.Store) (ids : List String) (bodies : Map ArticleView)
        (needed_ids : List String)
        → ((id : String) (a : ArticleView) → articles.get cache id ≡ some a → P id a)
        → AllHold bodies
        → AllHold (cached_bodies articles not_found cache ids bodies needed_ids).0
    unfolding cached_bodies
    cached_bodies-AllHold cache [] bodies needed_ids cached all = all
    cached_bodies-AllHold cache (id ∷ ids) bodies needed_ids cached all =
        elim (Option-cases (articles.get cache id)) [
          | inl miss ↦
              rw (miss, cached_bodies)
                (cached_bodies-AllHold cache ids bodies (needed_ids ++ id ∷ []) cached all)
          | inr (a, hit) ↦
              rw (hit, cached_bodies)
                (cached_bodies-AllHold cache ids (insert id a bodies) needed_ids cached
                  (AllHold-insert id a bodies (cached id a hit) all))
        ]

    module _ (answers : String → List (Result ArticleView NntpError))
        (answered : (id : String) (a : ArticleView) → FirstAnswer (answers id) a → P id a) where
      keep_body-AllHold :
          (s : State articles not_found) (id : String) (bodies : Map ArticleView)
          → ((id : String) (a : ArticleView) → articles.get s.article_cache id ≡ some a → P id a)
          → AllHold bodies
          → AllHold (
              keep_body articles not_found id
                (get_article articles not_found s id (answers id)).1
                bodies)
      unfolding keep_body
      keep_body-AllHold s id bodies cached all =
          elim (result_of (get_article articles not_found s id (answers id)).1) [
            | inl (a, got) ↦
                rw (got, keep_body)
                  (AllHold-insert id a bodies
                    (elim (get_article-ok articles not_found s id (answers id) a got).0 [
                      | inl hit ↦ cached id a hit
                      | inr first ↦ answered id a first
                    ])
                    all)
            | inr (e, failed) ↦ rw (failed, keep_body) all
          ]

      pub fetch_bodies-AllHold :
          (s : State articles not_found) (ids : List String) (bodies : Map ArticleView)
          → ((id : String) (a : ArticleView) → articles.get s.article_cache id ≡ some a → P id a)
          → AllHold bodies
          → AllHold (fetch_bodies articles not_found answers s ids bodies).1
      unfolding fetch_bodies
      fetch_bodies-AllHold s [] bodies cached all = all
      fetch_bodies-AllHold s (id ∷ ids) bodies cached all =
          fetch_bodies-AllHold (get_article articles not_found s id (answers id)).0 ids
            (keep_body articles not_found id (get_article articles not_found s id (answers id)).1
              bodies)
            (get_article_cache_sound articles not_found P s id (answers id) cached (answered id))
            (keep_body-AllHold s id bodies cached all)

  differs :
      (cache : articles.Store) (first id : String) (a : ArticleView)
      → articles.get cache first ≡ none
      → articles.get cache id ≡ some a
      → str_eq first id ≡ false
  differs cache first id a miss hit = elim (Bool-cases (str_eq first id)) [
    | inl same ↦
        let clash : none ≡ some a =
          sym miss
          ∙ subst (λ k. articles.get cache k ≡ some a) (sym ((eq_iff first id).0 same)) hit in
        absurd (cc)
    | inr other ↦ other
  ]

  stored :
      (cache : articles.Store) (first : String) (ids : List String) (bodies : Map ArticleView)
      (id : String) (a b : ArticleView)
      → articles.get cache id ≡ some a
      → articles.get cache first ≡ some b
      → (is_member id (first ∷ ids) ≡ true) ⊎ (lookup id bodies ≡ some a)
      → (is_member id ids ≡ true) ⊎ (lookup id (insert first b bodies) ≡ some a)
  stored cache first ids bodies id a b hit got h = elim (Bool-cases (str_eq first id)) [
    | inl same ↦
        let value : some b ≡ some a =
          sym got
          ∙ subst (λ k. articles.get cache k ≡ some a) (sym ((eq_iff first id).0 same)) hit in
        inr (rw (lookup-insert first id b bodies, same) value)
    | inr other ↦ elim h [
      | inl m ↦ inl (ground (arith, other))
      | inr k ↦ inr (rw (lookup-insert first id b bodies, other) k)
    ]
  ]

  -- The cached body is collected for every identifier of the page that the cache has.
  pub cached_bodies-hit :
      (cache : articles.Store) (ids : List String) (bodies : Map ArticleView)
      (needed_ids : List String) (id : String) (a : ArticleView)
      → articles.get cache id ≡ some a
      → (is_member id ids ≡ true) ⊎ (lookup id bodies ≡ some a)
      → lookup id (cached_bodies articles not_found cache ids bodies needed_ids).0 ≡ some a
  unfolding cached_bodies
  cached_bodies-hit cache [] bodies needed_ids id a hit (inl h) = cc
  cached_bodies-hit cache [] bodies needed_ids id a hit (inr h) = h
  cached_bodies-hit cache (first ∷ ids) bodies needed_ids id a hit h =
      elim (Option-cases (articles.get cache first)) [
        | inl miss ↦
            rw (miss, cached_bodies)
              (cached_bodies-hit cache ids bodies (needed_ids ++ first ∷ []) id a hit (elim h [
                | inl m ↦ inl (ground (arith, differs cache first id a miss hit))
                | inr k ↦ inr k
              ]))
        | inr (b, got) ↦
            rw (got, cached_bodies)
              (cached_bodies-hit cache ids (insert first b bodies) needed_ids id a hit
                (stored cache first ids bodies id a b hit got h))
      ]

  abbrev pub Missing : articles.Store → List String → Type 0
  Missing cache = All λ id. articles.get cache id ≡ none

  pub cached_bodies-Missing :
      (cache : articles.Store) (ids : List String) (bodies : Map ArticleView)
      (needed_ids : List String)
      → Missing cache needed_ids
      → Missing cache (cached_bodies articles not_found cache ids bodies needed_ids).1
  unfolding cached_bodies
  cached_bodies-Missing cache [] bodies needed_ids missing = missing
  cached_bodies-Missing cache (id ∷ ids) bodies needed_ids missing =
      elim (Option-cases (articles.get cache id)) [
        | inl miss ↦
            rw (miss, cached_bodies)
              (cached_bodies-Missing cache ids bodies (needed_ids ++ id ∷ []) (
                All-append (λ id. articles.get cache id ≡ none) (id ∷ []) (miss, tt) needed_ids
                  missing))
        | inr (a, hit) ↦
            rw (hit, cached_bodies)
              (cached_bodies-Missing cache ids (insert id a bodies) needed_ids missing)
      ]

  pub keep_body-other :
      (first id : String) (r : Result ArticleView AppError) (bodies : Map ArticleView)
      → str_eq first id ≡ false
      → lookup id (keep_body articles not_found first r bodies) ≡ lookup id bodies
  unfolding keep_body
  keep_body-other first id (ok b) bodies differ = rw (lookup-insert first id b bodies, differ) refl
  keep_body-other first id (err e) bodies differ = refl

  pub fetch_bodies-other :
      (answers : String → List (Result ArticleView NntpError)) (cache : articles.Store)
      (s : State articles not_found) (ids : List String) (bodies : Map ArticleView) (id : String)
      (a : ArticleView)
      → Missing cache ids
      → articles.get cache id ≡ some a
      → lookup id (fetch_bodies articles not_found answers s ids bodies).1 ≡ lookup id bodies
  unfolding fetch_bodies
  fetch_bodies-other answers cache s [] bodies id a missing hit = refl
  fetch_bodies-other answers cache s (first ∷ ids) bodies id a missing hit =
      fetch_bodies-other answers cache (get_article articles not_found s first (answers first)).0
        ids
        (keep_body articles not_found first
          (get_article articles not_found s first (answers first)).1 bodies)
        id a missing.1 hit
      ∙ keep_body-other first id (get_article articles not_found s first (answers first)).1 bodies
          (differs cache first id a missing.0 hit)
