-- ===== src/Worker.antt =====
-- The workers of src/nntp/worker.rs and their messages in src/nntp/messages.rs: capabilities, the
-- priority queues, the pool's counters, and the requests that a worker answers with its client.
-- The client belongs to the crate nntp_rs; it is a record of functions on a session.
pub mod Messages
pub mod Queues
pub mod Fairness
pub mod Pool
pub mod Counted
pub mod Client
pub mod Fetching
pub mod Requests
pub mod Stuffing
pub mod Replies
pub mod Order
mod Examples
use september.Base.{
  ℕ, ◌&&◌, ◌||◌, not, Bool, true, false, Option, none, some, List, [], ◌∷◌, ◌++◌, ◌==◌, map,
  if◌then◌else◌, drop,
}
use september.Base.Text.{Text, codes, to_uppercase, starts_with, is_whitespace}

pub data ThreadFetchMethod : Type 0 where
  hdr : ThreadFetchMethod
  over : ThreadFetchMethod
  head : ThreadFetchMethod

pub record ServerCapabilities : Type 0 where
  pub list_variants : List Text
  pub hdr_supported : Bool
  pub over_supported : Bool
  pub references_in_overview : Bool
  pub retrieved : Bool
  pub post_supported : Bool
  pub greeting_allows_post : Bool

unfoldable pub text_eq : Text → Text → Bool
text_eq [] [] = true
text_eq (c ∷ s) (d ∷ t) = c == d && text_eq s t
text_eq s t = false

unfoldable pub keep_word : Text → List Text → List Text
keep_word [] words = words
keep_word (c ∷ word) words = (c ∷ word) ∷ words

unfoldable pub leading : Text → Text × List Text
leading [] = ([], [])
leading (c ∷ s) =
    let (word, words) = leading s in
    if is_whitespace c then ([], keep_word word words) else (c ∷ word, words)

-- s.split_whitespace()
unfoldable pub text_words : Text → List Text
unfolding leading keep_word
text_words s = let (word, words) = leading s in keep_word word words

is_command : Text → Text → Bool
is_command cap_upper name = text_eq cap_upper name || starts_with cap_upper (name ++ codes " ")

-- The body of the loop over the lines of the response.
unfoldable pub read_capability : Text → ServerCapabilities → ServerCapabilities
unfolding is_command
read_capability cap caps =
    let cap_upper = to_uppercase cap in
    if starts_with cap_upper (codes "LIST ")
    then record caps {
      list_variants = caps.list_variants ++ map to_uppercase (text_words (drop 5 cap));
    }
    else if text_eq cap_upper (codes "LIST")
    then record caps { list_variants = caps.list_variants ++ codes "BASIC" ∷ [] }
    else if is_command cap_upper (codes "HDR")
    then record caps { hdr_supported = true }
    else if is_command cap_upper (codes "OVER")
    then record caps { over_supported = true }
    else if is_command cap_upper (codes "POST")
    then record caps { post_supported = true }
    else caps

unfoldable pub read_capabilities : List Text → ServerCapabilities → ServerCapabilities
read_capabilities [] caps = caps
read_capabilities (cap ∷ lines) caps = read_capabilities lines (read_capability cap caps)

unfoldable pub from_capabilities : List Text → ServerCapabilities
from_capabilities lines = read_capabilities lines (record {
  list_variants = [];
  hdr_supported = false;
  over_supported = false;
  references_in_overview = false;
  retrieved = true;
  post_supported = false;
  greeting_allows_post = false;
})

unfoldable pub thread_fetch_method : ServerCapabilities → ThreadFetchMethod
thread_fetch_method self =
    if self.over_supported && self.references_in_overview
    then over
    else if self.over_supported
    then over
    else if self.hdr_supported
    then hdr
    else head

pub data ListMethod : Type 0 where
  list_active : ListMethod
  list_newsgroups : ListMethod

pub all_list_methods : List ListMethod
all_list_methods = list_active ∷ list_newsgroups ∷ []

has_variant : List Text → Text → Bool
has_variant [] name = false
has_variant (variant ∷ variants) name = text_eq variant name || has_variant variants name

is_empty {ℓ} : {A : Type ℓ} → List A → Bool
is_empty [] = true
is_empty (x ∷ xs) = false

or_all : List ListMethod → List ListMethod
or_all [] = all_list_methods
or_all (m ∷ methods) = m ∷ methods

unfoldable pub get_list_methods : ServerCapabilities → List ListMethod
unfolding has_variant is_empty or_all all_list_methods
get_list_methods self =
    if self.retrieved && not (is_empty self.list_variants)
    then or_all (
        (if has_variant self.list_variants (codes "ACTIVE") then list_active ∷ [] else [])
        ++ (if has_variant self.list_variants (codes "NEWSGROUPS")
            then list_newsgroups ∷ []
            else []))
    else all_list_methods

unfoldable pub can_post : ServerCapabilities → Bool
can_post self = self.greeting_allows_post && self.post_supported
