-- ===== src/Rtsp/Answer/Sent.antt =====
-- The headers of an answer of `_respond` in dvrbridge/rtsp/server.py.
use dvrbridge.Base.{
  Bool, true, false, ◌||◌, Option, none, some, [], ◌∷◌, ◌++◌, Bytes, length, if◌then◌else◌,
  append-nil, All, ◌≡◌, refl, sym, ap, ◌∙◌, arith, Bool-cases, inl, inr, codes, text_eq,
  eq_of_text_eq,
}
use dvrbridge.Rtsp.Dispatch.{lower, lower_code}
use dvrbridge.Rtsp.Reading.{Headers, get_header, set_header}
use dvrbridge.Rtsp.Reading.Block.{all_stored, get_header-other, set_header-new}
use dvrbridge.Rtsp.Answer.{str, set_default, sent_headers}

abbrev pub content_length : Bytes
content_length = codes "content-length"

-- No header for the length of the body, in any case.
abbrev pub NoLength : Headers → Type 0
NoLength = All (λ h. text_eq content_length (lower h.0) ≡ false)

pub get_header-NoLength :
    (hs : Headers) → NoLength hs → get_header content_length (all_stored hs) ≡ none
get_header-NoLength [] h = unfold get_header in refl
get_header-NoLength (x ∷ hs) h =
    get_header-other content_length (lower x.0) x.1 (all_stored hs) h.0 ∙ get_header-NoLength hs h.1

-- The server's name is not that of the length.
pub server_name : text_eq content_length (lower (codes "Server")) ≡ false
unfolding text_eq lower lower_code
server_name = refl

set_header-other :
    (k v : Bytes) (x : Bytes × Bytes) (hs : Headers)
    → text_eq k x.0 ≡ false
    → set_header k v (x ∷ hs) ≡ x ∷ set_header k v hs
unfolding set_header
set_header-other k v x hs e = rw (e, set_header) refl

set_header-same :
    (k v : Bytes) (x : Bytes × Bytes) (hs : Headers)
    → text_eq k x.0 ≡ true
    → set_header k v (x ∷ hs) ≡ (x.0, v) ∷ hs
unfolding set_header
set_header-same k v x hs e = rw (e, set_header) refl

-- The name that is set is no other one's.
other_name :
    (k : Bytes)
    → text_eq content_length (lower k) ≡ false
    → text_eq (codes "Content-Length") k ≡ false
unfolding lower lower_code text_eq
other_name k h = elim (Bool-cases (text_eq (codes "Content-Length") k)) [
  | inl e ↦
      cc
        (h, ap (λ t. text_eq content_length (lower t)) (eq_of_text_eq (codes "Content-Length") k e))
  | inr e ↦ e
]

pub get_header-set :
    (v : Bytes) (hs : Headers)
    → NoLength hs
    → get_header content_length (all_stored (set_header (codes "Content-Length") v hs)) ≡ some v
get_header-set v [] h = unfold get_header set_header lower lower_code text_eq in refl
get_header-set v (x ∷ hs) h =
    ap (λ t. get_header content_length (all_stored t))
      (set_header-other (codes "Content-Length") v x hs (other_name x.0 h.0))
    ∙ get_header-other content_length (lower x.0) x.1
        (all_stored (set_header (codes "Content-Length") v hs)) h.0
    ∙ get_header-set v hs h.1

-- Another name keeps the length out.
NoLength-set : (v : Bytes) (hs : Headers) → NoLength hs → NoLength (set_header (codes "CSeq") v hs)
NoLength-set v [] h = unfold set_header text_eq lower lower_code in (refl, tt)
NoLength-set v (x ∷ hs) h = elim (Bool-cases (text_eq (codes "CSeq") x.0)) [
  | inl e ↦ rw (set_header-same (codes "CSeq") v x hs e) h
  | inr e ↦ rw (set_header-other (codes "CSeq") v x hs e) (h.0, NoLength-set v hs h.1)
]

NoLength-default :
    (v : Bytes) (hs : Headers) → NoLength hs → NoLength (set_default (codes "CSeq") v hs)
NoLength-default v hs h = go (get_header (codes "CSeq") hs) refl
  where
    go :
        (o : Option Bytes)
        → get_header (codes "CSeq") hs ≡ o
        → NoLength (set_default (codes "CSeq") v hs)
    go none e = unfold set_default in rw (e, set_default) (NoLength-set v hs h)
    go (some old) e = unfold set_default in rw (e, set_default) h

abbrev pub has_name : Bytes → Headers → Bool
has_name k [] = false
has_name k (h ∷ hs) = text_eq k h.0 || has_name k hs

get_header-absent : (k : Bytes) (hs : Headers) → has_name k hs ≡ false → get_header k hs ≡ none
unfolding get_header
get_header-absent k [] e = refl
get_header-absent k (h ∷ hs) e =
    let other : text_eq k h.0 ≡ false = ground (arith, e) in
    get_header-other k h.0 h.1 hs other ∙ get_header-absent k hs (ground (arith, e, other))

get_header-present :
    (k : Bytes) (hs : Headers) → has_name k hs ≡ true → (v : Bytes) × (get_header k hs ≡ some v)
unfolding get_header
get_header-present k [] e = absurd (cc e)
get_header-present k (h ∷ hs) e = elim (Bool-cases (text_eq k h.0)) [
  | inl same ↦ (h.1, rw (same, get_header) refl)
  | inr other ↦
      let more = get_header-present k hs (ground (arith, e, other)) in
      (more.0, get_header-other k h.0 h.1 hs other ∙ more.1)
]

-- A header where there is none of its name.
abbrev pub missing : Bytes → Bytes → Headers → Headers
missing k v hs = if has_name k hs then [] else (k, v) ∷ []

-- The length of a body that is not empty.
abbrev pub length_header : Bytes → Headers
length_header [] = []
length_header (b ∷ body) = (codes "Content-Length", str (length (b ∷ body))) ∷ []

-- The headers of an answer: the name of the server, those given, a `CSeq` of 0 where none is given, and the length of a body.
abbrev pub all_sent : Bytes → Headers → Bytes → Headers
all_sent server headers body =
    (codes "Server", server)
    ∷ ((headers ++ missing (codes "CSeq") (codes "0") headers) ++ length_header body)

set_default-missing : (k v : Bytes) (hs : Headers) → set_default k v hs ≡ hs ++ missing k v hs
unfolding set_default
set_default-missing k v hs = elim (Bool-cases (has_name k hs)) [
  | inl e ↦
      let there = get_header-present k hs e in
      rw (there.1, set_default) (rw e (sym (append-nil hs)))
  | inr e ↦
      let absent = get_header-absent k hs e in
      rw (absent, set_default) (rw e (set_header-new k v hs absent))
]

get_header-length : (hs : Headers) → NoLength hs → get_header (codes "Content-Length") hs ≡ none
unfolding get_header
get_header-length [] h = refl
get_header-length (x ∷ hs) h =
    get_header-other (codes "Content-Length") x.0 x.1 hs (other_name x.0 h.0)
    ∙ get_header-length hs h.1

-- `_respond` sends these headers.
pub sent_headers-all_sent :
    (server : Bytes) (headers : Headers) (body : Bytes)
    → NoLength headers
    → (codes "Server", server) ∷ sent_headers headers body ≡ all_sent server headers body
unfolding sent_headers
sent_headers-all_sent server headers [] free =
    ap (λ hs. (codes "Server", server) ∷ hs)
      (set_default-missing (codes "CSeq") (codes "0") headers ∙ sym (append-nil _))
sent_headers-all_sent server headers (b ∷ body) free =
    ap (λ hs. (codes "Server", server) ∷ hs)
      (set_header-new (codes "Content-Length") (str (length (b ∷ body)))
          (set_default (codes "CSeq") (codes "0") headers)
          (get_header-length (set_default (codes "CSeq") (codes "0") headers)
            (NoLength-default (codes "0") headers free))
        ∙ ap (λ hs. hs ++ length_header (b ∷ body))
            (set_default-missing (codes "CSeq") (codes "0") headers))

-- The length that a client reads.
abbrev pub read_length : Bytes → Option Bytes
read_length [] = none
read_length (b ∷ body) = some (str (length (b ∷ body)))

pub get_header-all_sent :
    (server : Bytes) (headers : Headers) (body : Bytes)
    → NoLength headers
    → get_header content_length (all_stored (all_sent server headers body)) ≡ read_length body
get_header-all_sent server headers [] free =
    ap (λ hs. get_header content_length (all_stored hs))
      (sym (sent_headers-all_sent server headers [] free))
    ∙ get_header-NoLength ((codes "Server", server) ∷ sent_headers headers [])
        (server_name, unfold sent_headers in NoLength-default (codes "0") headers free)
get_header-all_sent server headers (b ∷ body) free =
    ap (λ hs. get_header content_length (all_stored hs))
      (sym (sent_headers-all_sent server headers (b ∷ body) free))
    ∙ get_header-other content_length (lower (codes "Server")) server _ server_name
    ∙ unfold sent_headers in
      get_header-set (str (length (b ∷ body))) (set_default (codes "CSeq") (codes "0") headers)
        (NoLength-default (codes "0") headers free)
