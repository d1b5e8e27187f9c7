-- ===== src/Posts/Submitted.antt =====
-- submit and reply of src/routes/post.rs: what was checked when an article is posted.
use september.Base.{
  ◌≡◌, ◌≤◌, refl, sym, Bool, true, false, not, Option, none, some, List, [], ◌∷◌, ◌++◌, arith,
  if◌then◌else◌,
}
use september.Base.Text.{Text, codes, trim, is_empty}
use september.Federated.{Result, ok, err, AppError}
use september.Session.{User, validate_csrf}
use september.Preview.{compute_preview, len}
use september.Posts.{
  max_subject_length, max_body_length, ComposeForm, ReplyForm, PostArticleParams,
  validate_input_lengths, Surroundings, Posted, article_headers, local_article, update_cache,
  after_post, post_and_update_cache, fail, then_post, format_from_header, generate_message_id,
  get_domain, reply_params, reply,
}

-- The article of the parameters was posted with these headers, and is what the cache is given.
pub record IsPosted (around : Surroundings) (params : PostArticleParams) (posted : Posted)
    : Type 0 where
  pub accepted :
      around.post_article params.group (article_headers around params) params.body ≡ ok tt
  pub headers : posted.headers ≡ article_headers around params
  pub group : posted.group ≡ params.group
  pub subject : posted.article.subject ≡ params.subject
  pub body : posted.article.body ≡ params.body
  pub preview :
      compute_preview params.body
      ≡ some (posted.article.body_preview, posted.article.has_more_content)
  pub root : posted.root_message_id ≡ params.root_message_id
  pub parent : posted.parent_message_id ≡ params.parent_message_id

post_and_update_cache-IsPosted :
    (around : Surroundings) (params : PostArticleParams) (posted : Posted)
    → post_and_update_cache around params ≡ some (ok posted)
    → IsPosted around params posted
unfolding post_and_update_cache after_post update_cache local_article
post_and_update_cache-IsPosted around params posted h =
    by_answer (around.post_article params.group (article_headers around params) params.body) refl h
  where
    by_preview :
        around.post_article params.group (article_headers around params) params.body ≡ ok tt
        → (preview : Option (Text × Bool)) → compute_preview params.body ≡ preview
        → update_cache around params preview ≡ some (ok posted)
        → IsPosted around params posted
    by_preview accepted none e g = absurd cc
    by_preview accepted (some (preview, more)) e g =
        let same : ◌≡◌ {A = Posted}
            (record {
              group = params.group;
              headers = article_headers around params;
              article = local_article around params (preview, more);
              root_message_id = params.root_message_id;
              parent_message_id = params.parent_message_id;
            })
            posted =
          cc in
        rw (sym same) (record {
          accepted = accepted;
          headers = refl;
          group = refl;
          subject = refl;
          body = refl;
          preview = e;
          root = refl;
          parent = refl;
        })

    by_answer :
        (answer : Result {0, 0} Unit Text)
        → around.post_article params.group (article_headers around params) params.body ≡ answer
        → after_post around params answer ≡ some (ok posted)
        → IsPosted around params posted
    by_answer (ok tt) e g = by_preview e (compute_preview params.body) refl g
    by_answer (err message) e g = absurd (refused g)
      where
        refused : ¬ (
            ◌≡◌ {A = Option (Result Posted AppError)}
              (fail (codes "Failed to post: " ++ message))
              (some (ok posted)))
        refused r = cc

-- A test that was passed.
guard :
    (b : Bool) (message : Text) (next : Option (Result Posted AppError)) (posted : Posted)
    → (if b then fail message else next) ≡ some (ok posted)
    → (b ≡ false) × (next ≡ some (ok posted))
guard true message next posted h = absurd (failed h)
  where
    failed : ¬ (◌≡◌ {A = Option (Result Posted AppError)} (fail message) (some (ok posted)))
    failed e = cc
guard false message next posted h = (refl, h)

then_post_passed :
    (c : Result {0, 0} Unit AppError) (next : Option (Result Posted AppError)) (posted : Posted)
    → then_post c next ≡ some (ok posted)
    → (c ≡ ok tt) × (next ≡ some (ok posted))
then_post_passed (ok tt) next posted h = (refl, h)
then_post_passed (err e) next posted h = absurd (failed h)
  where
    failed : ¬ (◌≡◌ {A = Option (Result Posted AppError)} (some (err e)) (some (ok posted)))
    failed g = cc

lengths_valid :
    (subject body : Text)
    → validate_input_lengths subject body ≡ ok tt
    → (len subject ≤ max_subject_length) × (len body ≤ max_body_length)
unfolding validate_input_lengths
lengths_valid subject body h = ground arith

-- The headers of an article that starts a thread.
abbrev pub new_thread_headers : Surroundings → User → Text → Text → Text → List (Text × Text)
new_thread_headers around user email group subject =
    (codes "From", format_from_header user.name email)
    ∷ (codes "Newsgroups", group)
    ∷ (codes "Subject", subject)
    ∷ (codes "Message-ID", generate_message_id around.uuid (get_domain around.site_name))
    ∷ (codes "Date", around.date)
    ∷ (codes "User-Agent", codes "September/" ++ around.version)
    ∷ []

-- The form was the user's and within the limits, and its text was posted and is what the caches get.
pub record IsSubmitted (around : Surroundings) (user : User) (email group : Text)
    (form : ComposeForm) (posted : Posted) : Type 0 where
  pub token : form.csrf_token ≡ user.csrf_token
  pub subject_fits : len form.subject ≤ max_subject_length
  pub body_fits : len form.body ≤ max_body_length
  pub subject_there : is_empty (trim form.subject) ≡ false
  pub body_there : is_empty (trim form.body) ≡ false
  pub accepted :
      around.post_article group
        (new_thread_headers around user email group (trim form.subject))
        form.body
      ≡ ok tt
  pub headers : posted.headers ≡ new_thread_headers around user email group (trim form.subject)
  pub group_kept : posted.group ≡ group
  pub subject : posted.article.subject ≡ trim form.subject
  pub body : posted.article.body ≡ form.body
  pub preview :
      compute_preview form.body
      ≡ some (posted.article.body_preview, posted.article.has_more_content)
  pub no_root : posted.root_message_id ≡ none
  pub no_parent : posted.parent_message_id ≡ none

-- When reply posts an article, the CSRF token of the form is the user's, the body is not blank,
-- subject and body are within their limits, and the article has been posted with the references of
-- the reply.
pub reply-IsPosted :
    (around : Surroundings) (user : User) (email message_id : Text) (form : ReplyForm)
    (posted : Posted)
    → reply around user email message_id form ≡ some (ok posted)
    → (validate_csrf user form.csrf_token ≡ true)
      × (len form.subject ≤ max_subject_length)
      × (len form.body ≤ max_body_length)
      × (is_empty (trim form.body) ≡ false)
      × IsPosted around (reply_params user email message_id form) posted
unfolding reply
reply-IsPosted around user email message_id form posted h =
    let (token, h1) = guard (not (validate_csrf user form.csrf_token)) _ _ posted h in
    let (lengths, h2) =
      then_post_passed (validate_input_lengths form.subject form.body) _ posted h1 in
    let (body, h3) = guard _ _ _ posted h2 in
    let (subject_fits, body_fits) = lengths_valid form.subject form.body lengths in
    (
      ground (arith, token),
      subject_fits,
      body_fits,
      body,
      post_and_update_cache-IsPosted around (reply_params user email message_id form) posted h3,
    )
