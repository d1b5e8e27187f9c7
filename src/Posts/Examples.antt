-- ===== src/Posts/Examples.antt =====
-- The theorems about src/routes/post.rs at concrete forms, and tests.
use september.Base.{◌≡◌, refl, false, none, some, [], ◌∷◌, ◌++◌, arith, map}
use september.Base.Text.{codes, is_whitespace, starts_with}
use september.Federated.{ok}
use september.Session.{User}
use september.Worker.{text_words, leading, keep_word}
use september.Worker.Stuffing.{
  lines, before_first, stuff, header_lines, format_article, article_lines, join,
}
use september.Posts.{ComposeForm, Surroundings, Posted, article_headers, compose_params}
use september.Posts.Lines.{lines-format_article}

parent_one_word : text_words (codes "<b@x>") ≡ codes "<b@x>" ∷ []
unfolding text_words leading keep_word is_whitespace
parent_one_word = refl

lines-format_article_example :
    lines (format_article ((codes "Subject", codes "Hi") ∷ []) (codes ".x") ++ 13 ∷ 10 ∷ [])
    ≡ header_lines ((codes "Subject", codes "Hi") ∷ []) ++ [] ∷ map stuff (lines (codes ".x"))
lines-format_article_example =
    lines-format_article ((codes "Subject", codes "Hi") ∷ []) (codes ".x") (ground arith)

abbrev user : User
user = record {
  sub = "1";
  name = some "Ann";
  email = some "a@x";
  provider = "google";
  expires_at = 100;
  csrf_token = 7 ∷ 8 ∷ [];
}

abbrev around : Surroundings
around = record {
  site_name = some (codes "news.example.com");
  uuid = codes "u";
  date = codes "d";
  date_relative = codes "just now";
  version = codes "1";
  post_article = λ group headers body. ok tt;
}

abbrev form : ComposeForm
form = record { subject = codes " Hi "; body = codes "Hello"; csrf_token = 7 ∷ 8 ∷ [] }

abbrev posted : Posted
posted = record {
  group = codes "misc.test";
  headers = article_headers around (compose_params user (codes "a@x") (codes "misc.test") form);
  article = record {
    message_id = codes "<u.september@example.com>";
    subject = codes "Hi";
    from = codes "Ann <a@x>";
    date = codes "d";
    date_relative = codes "just now";
    body = codes "Hello";
    body_preview = codes "Hello";
    has_more_content = false;
  };
  root_message_id = none;
  parent_message_id = none;
}

-- A subject with a line feed makes a header of its own.
injection_test :
    lines (format_article ((codes "Subject", codes "a\r\nControl: x") ∷ []) [])
    ≡ codes "Subject: a" ∷ codes "Control: x" ∷ []
unfolding lines before_first format_article article_lines header_lines join starts_with
injection_test = refl
