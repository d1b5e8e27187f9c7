-- ===== src/Worker/Client.antt =====
-- The client of nntp_rs as src/nntp/worker.rs uses it, on a session of type `S`: each command answers
-- or fails with the text of an error. A range of article numbers is its two ends, the second left out
-- for an open range.
use september.Base.{ℕ, Option, List, String}
use september.Base.Text.{Text}
use september.Federated.{Result}
use september.Thread.{ArticleView}

pub record GroupInfo : Type 0 where
  pub count : ℕ
  pub last : ℕ

-- A line of the answer to HDR.
pub record HdrEntry : Type 0 where
  pub article : String
  pub value : String

pub record Client (S E : Type 0) : Type 0 where
  pub list_active : S → Result (List String) Text × S
  pub list_newsgroups : S → Result (List (String × String)) Text × S
  pub group : String → S → Result GroupInfo Text × S
  pub hdr : String → ℕ → ℕ → S → Result (List HdrEntry) Text × S
  pub hdr_date : ℕ → S → Result (List Text) Text × S
  pub head_lines : String → ℕ → S → Result (List Text) Text × S
  pub over : ℕ → Option ℕ → S → Result (List E) Text × S
  pub article : String → S → Result ArticleView Text × S
  pub post : Text → S → Result (Unit {0}) Text × S
  pub stat : String → S → Result (Unit {0}) Text × S
