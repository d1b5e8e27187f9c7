-- ===== src/Federated/Page/Filled.antt =====
-- The comments of one page of a thread with the bodies that get_thread_paginated of
-- src/nntp/federated.rs puts into them.
use september.Base.{
  ℕ, suc, ◌≡◌, ◌⊎◌, inl, inr, refl, ◌∙◌, true, ◌&&◌, Option, none, some, List, [], ◌∷◌, String, Map,
  lookup, arith, ltb, leb, if◌then◌else◌, Bool-cases,
}
use september.Federated.{NntpError, Result, Cache}
use september.Federated.Articles.{State}
use september.Federated.Lookup.{FirstAnswer}
use september.Federated.Page.{fill_comment, fill_comments, cached_bodies, fetch_bodies}
use september.Federated.Page.Covers.{Covers, ids_of, page_start, page_end, page_items-Covers}
use september.Federated.Page.Bodies.{
  cached_bodies-AllHold, fetch_bodies-AllHold, cached_bodies-hit, cached_bodies-Missing,
  fetch_bodies-other,
}
use september.Federated.Page.Fetched.{cached_bodies-needed, fetch_bodies-answered}
use september.Pagination.{page_items}
use september.Thread.{ArticleView, FlatComment}
use september.Thread.Ids.{is_member}

module _ (articles : Cache ArticleView) (not_found : Cache (Unit {0}))
    (answers : String → List (Result ArticleView NntpError)) (self : State articles not_found) where
  -- The article whose body a comment of the page takes, if any: the cached one, else the first
  -- answer of the servers, which is there unless the article is remembered as missing.
  pub record IsBody (id : String) (fetched : Option ArticleView) : Type 0 where
    pub sound :
        (a : ArticleView)
        → fetched ≡ some a
        → (articles.get self.article_cache id ≡ some a) ⊎ FirstAnswer (answers id) a
    pub cached : (a : ArticleView) → articles.get self.article_cache id ≡ some a → fetched ≡ some a
    pub answered :
        (a : ArticleView)
        → articles.get self.article_cache id ≡ none
        → not_found.get self.article_not_found_cache id ≡ none
        → FirstAnswer (answers id) a
        → fetched ≡ some a

  pub IsFilled : FlatComment → FlatComment → Type 0
  IsFilled before after =
      (fetched : Option ArticleView) × (after ≡ fill_comment fetched before)
      × IsBody before.message_id fetched

  -- The comments with numbers from start to end are filled, and the others stay as they are.
  abbrev pub IsPage : ℕ → ℕ → ℕ → List FlatComment → List FlatComment → Type 0
  IsPage start end i [] [] = Unit
  IsPage start end i (c ∷ cs) (d ∷ ds) =
      (if leb start i && ltb i end then IsFilled c d else d ≡ c) × IsPage start end (suc i) cs ds
  IsPage start end i [] (d ∷ ds) = ⊥
  IsPage start end i (c ∷ cs) [] = ⊥

  -- The comments of a whole thread, of which one page is filled.
  abbrev pub ShowsPage : ℕ → ℕ → List FlatComment → List FlatComment → Type 0
  ShowsPage page per_page flat =
      IsPage (page_start page per_page) (page_end page per_page flat) 0 flat

  fill_comments-IsPage :
      (bodies : Map ArticleView) (ids : List String) (start end i : ℕ) (cs : List FlatComment)
      → Covers ids start end i cs
      → ((id : String) → is_member id ids ≡ true → IsBody id (lookup id bodies))
      → IsPage start end i cs (fill_comments bodies ids start end i cs)
  unfolding fill_comments IsFilled
  fill_comments-IsPage bodies ids start end i [] covers bodies_found = tt
  fill_comments-IsPage bodies ids start end i (c ∷ cs) covers bodies_found = (
    elim (Bool-cases (leb start i && ltb i end)) [
      | inl inside ↦
          let member : is_member c.message_id ids ≡ true =
            covers.0 (ground (arith, inside)) (ground (arith, inside)) in
          rw (inside, member) (lookup c.message_id bodies, refl, bodies_found c.message_id member)
      | inr outside ↦ rw outside refl
    ],
    fill_comments-IsPage bodies ids start end (suc i) cs covers.1 bodies_found,
  )

  -- The bodies for the identifiers of a page.
  abbrev pub page_bodies : List String → Map ArticleView
  page_bodies ids =
      let (cached, needed_ids) = cached_bodies articles not_found self.article_cache ids [] [] in
      (fetch_bodies articles not_found answers self needed_ids cached).1

  page_bodies-IsBody :
      (ids : List String) (id : String)
      → is_member id ids ≡ true
      → IsBody id (lookup id (page_bodies ids))
  unfolding lookup
  page_bodies-IsBody ids id member = record {
    sound =
        fetch_bodies-AllHold articles not_found
          (λ k a. (articles.get self.article_cache k ≡ some a) ⊎ FirstAnswer (answers k) a) answers
          (λ k a h. inr h) self collected.1 collected.0 (λ k a h. inl h)
          (cached_bodies-AllHold articles not_found
            (λ k a. (articles.get self.article_cache k ≡ some a) ⊎ FirstAnswer (answers k) a)
            self.article_cache ids [] [] (λ k a h. inl h) (λ k a h. absurd (cc)))
          id;
    cached = λ a hit.
        fetch_bodies-other articles not_found answers self.article_cache self collected.1
          collected.0 id a
          (cached_bodies-Missing articles not_found self.article_cache ids [] [] tt) hit
        ∙ cached_bodies-hit articles not_found self.article_cache ids [] [] id a hit (inl member);
    answered = λ a miss unknown first.
        fetch_bodies-answered articles not_found answers self collected.1 collected.0 id a first
          (λ b hit. absurd (cc), unknown)
          (inl (
            cached_bodies-needed articles not_found self.article_cache ids [] [] id miss
              (inl member)));
  }
    where
      collected : Map ArticleView × List String
      collected = cached_bodies articles not_found self.article_cache ids [] []

  -- flatten_paginated's comments with the bodies of the page.
  abbrev pub filled_page : List String → ℕ → ℕ → List FlatComment → List FlatComment
  filled_page ids page per_page flat =
      fill_comments (page_bodies ids) ids (page_start page per_page) (page_end page per_page flat) 0
        flat

  pub filled_page-ShowsPage :
      (page per_page : ℕ) (flat shown : List FlatComment)
      → page_items flat page per_page ≡ some shown
      → ShowsPage page per_page flat (filled_page (ids_of shown) page per_page flat)
  filled_page-ShowsPage page per_page flat shown sliced =
      fill_comments-IsPage (page_bodies (ids_of shown)) (ids_of shown) (page_start page per_page)
        (page_end page per_page flat) 0 flat (page_items-Covers flat shown page per_page sliced)
        (page_bodies-IsBody (ids_of shown))
