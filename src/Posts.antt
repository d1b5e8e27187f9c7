-- ===== src/Posts.antt =====
-- The handlers of src/routes/post.rs that post an article or a reply. What the handlers read
-- elsewhere (the clock, a random number, the answer of the NNTP service) is a record; what they do
-- is the article that they post with what they put into the cache. `none` is the panic of
-- compute_preview, after the article was posted.
pub mod References
pub mod Lines
pub mod Submitted
mod Examples
use september.Base.{
  ℕ, Bool, true, false, not, ◌||◌, Option, none, some, List, [], ◌∷◌, ◌++◌, ltb, ◌==◌,
  if◌then◌else◌, String,
}
use september.Base.Text.{Text, codes, trim, is_empty}
use september.Federated.{Result, ok, err, AppError, internal}
use september.Session.{User, validate_csrf}
use september.Worker.{text_words}
use september.Preview.{compute_preview, len}

abbrev pub max_subject_length : ℕ
max_subject_length = 500

abbrev pub max_body_length : ℕ
max_body_length = 64000

-- The bytes of the token are compared; the other fields are texts.
pub record ComposeForm : Type 0 where
  pub subject : Text
  pub body : Text
  pub csrf_token : List ℕ

pub record ReplyForm : Type 0 where
  pub body : Text
  pub group : Text
  pub subject : Text
  pub references : Text
  pub csrf_token : List ℕ

pub record PostArticleParams : Type 0 where
  pub group : Text
  pub subject : Text
  pub body : Text
  pub from : Text
  pub references : Option Text
  pub root_message_id : Option Text
  pub parent_message_id : Option Text

unfoldable pub format_from_header : Option String → Text → Text
format_from_header (some name) email = codes name ++ codes " <" ++ email ++ codes ">"
format_from_header none email = email

unfoldable pub generate_message_id : Text → Text → Text
generate_message_id uuid domain = codes "<" ++ uuid ++ codes ".september@" ++ domain ++ codes ">"

-- s.split('.')
push_char : ℕ → List Text → List Text
push_char c [] = (c ∷ []) ∷ []
push_char c (part ∷ parts) = (c ∷ part) ∷ parts

unfoldable pub split_text : Text → List Text
unfolding push_char
split_text [] = [] ∷ []
split_text (c ∷ s) = let parts = split_text s in if c == 46 then [] ∷ parts else push_char c parts

-- The last two parts with a dot, or the only one.
unfoldable pub domain_of : List Text → Option Text
domain_of [] = none
domain_of (part ∷ []) = if is_empty part then none else some part
domain_of (a ∷ b ∷ []) = some (a ++ codes "." ++ b)
domain_of (a ∷ b ∷ c ∷ parts) = domain_of (b ∷ c ∷ parts)

-- .replace(' ', "")
without_spaces : Text → Text
without_spaces [] = []
without_spaces (c ∷ s) = let rest = without_spaces s in if c == 32 then rest else c ∷ rest

domain_or : Option Text → Text
domain_or none = codes "localhost"
domain_or (some domain) = domain

site_domain : Option Text → Option Text
unfolding domain_of
site_domain none = none
site_domain (some site_name) = domain_of (split_text site_name)

unfoldable pub get_domain : Option Text → Text
unfolding site_domain domain_or without_spaces
get_domain site_name = without_spaces (domain_or (site_domain site_name))

unfoldable pub validate_input_lengths : Text → Text → Result {0, 0} Unit AppError
validate_input_lengths subject body =
    if ltb max_subject_length (len subject)
    then err (internal (codes "Subject too long (max 500 characters)"))
    else if ltb max_body_length (len body)
    then err (internal (codes "Message body too long (max 64000 characters)"))
    else ok tt

-- What the handlers read: the name of the site, a new UUID, the date and how compute_timeago shows
-- it, the version, and the answer of the service to post_article.
pub record Surroundings : Type 0 where
  pub site_name : Option Text
  pub uuid : Text
  pub date : Text
  pub date_relative : Text
  pub version : Text
  pub post_article : Text → List (Text × Text) → Text → Result {0, 0} Unit Text

-- The ArticleView that is built from local data.
pub record LocalArticle : Type 0 where
  pub message_id : Text
  pub subject : Text
  pub from : Text
  pub date : Text
  pub date_relative : Text
  pub body : Text
  pub body_preview : Text
  pub has_more_content : Bool

-- What was posted, and what inject_posted_article gets.
pub record Posted : Type 0 where
  pub group : Text
  pub headers : List (Text × Text)
  pub article : LocalArticle
  pub root_message_id : Option Text
  pub parent_message_id : Option Text

abbrev pub references_header : Option Text → List (Text × Text)
references_header none = []
references_header (some refs) = (codes "References", refs) ∷ []

unfoldable pub article_headers : Surroundings → PostArticleParams → List (Text × Text)
article_headers around params =
    (codes "From", params.from)
    ∷ (codes "Newsgroups", params.group)
    ∷ (codes "Subject", params.subject)
    ∷ (codes "Message-ID", generate_message_id around.uuid (get_domain around.site_name))
    ∷ (codes "Date", around.date)
    ∷ (references_header params.references
        ++ (codes "User-Agent", codes "September/" ++ around.version) ∷ [])

unfoldable pub local_article : Surroundings → PostArticleParams → Text × Bool → LocalArticle
local_article around params (preview, more) = record {
  message_id = generate_message_id around.uuid (get_domain around.site_name);
  subject = params.subject;
  from = params.from;
  date = around.date;
  date_relative = around.date_relative;
  body = params.body;
  body_preview = preview;
  has_more_content = more;
}

unfoldable pub update_cache :
    Surroundings → PostArticleParams → Option (Text × Bool) → Option (Result Posted AppError)
unfolding local_article
update_cache around params none = none
update_cache around params (some preview) = some (
    ok (record {
      group = params.group;
      headers = article_headers around params;
      article = local_article around params preview;
      root_message_id = params.root_message_id;
      parent_message_id = params.parent_message_id;
    }))

unfoldable pub after_post :
    Surroundings → PostArticleParams → Result {0, 0} Unit Text → Option (Result Posted AppError)
unfolding update_cache
after_post around params (ok u) = update_cache around params (compute_preview params.body)
after_post around params (err e) = some (err (internal (codes "Failed to post: " ++ e)))

unfoldable pub post_and_update_cache :
    Surroundings → PostArticleParams → Option (Result Posted AppError)
unfolding after_post
post_and_update_cache around params =
    after_post around params
      (around.post_article params.group (article_headers around params) params.body)

abbrev pub fail : Text → Option (Result Posted AppError)
fail message = some (err (internal message))

-- The operator `?` on a check.
abbrev pub then_post :
    Result {0, 0} Unit AppError → Option (Result Posted AppError) → Option (Result Posted AppError)
then_post (ok u) next = next
then_post (err e) next = some (err e)

unfoldable pub compose_params : User → Text → Text → ComposeForm → PostArticleParams
compose_params user email group form = record {
  group = group;
  subject = trim form.subject;
  body = form.body;
  from = format_from_header user.name email;
  references = none;
  root_message_id = none;
  parent_message_id = none;
}

unfoldable pub submit :
    Surroundings → User → Text → Text → ComposeForm → Option (Result Posted AppError)
submit around user email group form =
    if not (validate_csrf user form.csrf_token)
    then fail (codes "Invalid form submission. Please try again.")
    else then_post (validate_input_lengths form.subject form.body) (
        if is_empty (trim form.subject)
        then fail (codes "Subject is required")
        else if is_empty (trim form.body)
        then fail (codes "Message body is required")
        else post_and_update_cache around (compose_params user email group form))

unfoldable pub reply_references : Text → Text → Text
reply_references references message_id =
    if is_empty (trim references) then message_id else trim references ++ codes " " ++ message_id

abbrev pub first_word : Text → List Text → Text
first_word otherwise [] = otherwise
first_word otherwise (word ∷ words) = word

unfoldable pub reply_root : Text → Text → Text
reply_root references message_id =
    if is_empty (trim references) then message_id else first_word message_id (text_words references)

unfoldable pub reply_params : User → Text → Text → ReplyForm → PostArticleParams
reply_params user email message_id form = record {
  group = form.group;
  subject = trim form.subject;
  body = form.body;
  from = format_from_header user.name email;
  references = some (reply_references form.references message_id);
  root_message_id = some (reply_root form.references message_id);
  parent_message_id = some message_id;
}

unfoldable pub reply :
    Surroundings → User → Text → Text → ReplyForm → Option (Result Posted AppError)
reply around user email message_id form =
    if not (validate_csrf user form.csrf_token)
    then fail (codes "Invalid form submission. Please try again.")
    else then_post (validate_input_lengths form.subject form.body) (
        if is_empty (trim form.body)
        then fail (codes "Message body is required")
        else post_and_update_cache around (reply_params user email message_id form))
