-- ===== src/Hd/Token.antt =====
-- `nghttp2_token` of lib/nghttp2_hd.h: the header field names that the library knows.
use newhttp.Common.{ℕ}

abbrev pub pseudo_authority : ℕ
pseudo_authority = 0

abbrev pub pseudo_method : ℕ
pseudo_method = 1

abbrev pub pseudo_path : ℕ
pseudo_path = 3

abbrev pub pseudo_scheme : ℕ
pseudo_scheme = 5

abbrev pub pseudo_status : ℕ
pseudo_status = 7

abbrev pub accept_charset : ℕ
accept_charset = 14

abbrev pub accept_encoding : ℕ
accept_encoding = 15

abbrev pub accept_language : ℕ
accept_language = 16

abbrev pub accept_ranges : ℕ
accept_ranges = 17

abbrev pub accept : ℕ
accept = 18

abbrev pub access_control_allow_origin : ℕ
access_control_allow_origin = 19

abbrev pub age : ℕ
age = 20

abbrev pub allow : ℕ
allow = 21

abbrev pub authorization : ℕ
authorization = 22

abbrev pub cache_control : ℕ
cache_control = 23

abbrev pub content_disposition : ℕ
content_disposition = 24

abbrev pub content_encoding : ℕ
content_encoding = 25

abbrev pub content_language : ℕ
content_language = 26

abbrev pub content_length : ℕ
content_length = 27

abbrev pub content_location : ℕ
content_location = 28

abbrev pub content_range : ℕ
content_range = 29

abbrev pub content_type : ℕ
content_type = 30

abbrev pub cookie : ℕ
cookie = 31

abbrev pub date : ℕ
date = 32

abbrev pub etag : ℕ
etag = 33

abbrev pub expect : ℕ
expect = 34

abbrev pub expires : ℕ
expires = 35

abbrev pub from : ℕ
from = 36

abbrev pub host : ℕ
host = 37

abbrev pub if_match : ℕ
if_match = 38

abbrev pub if_modified_since : ℕ
if_modified_since = 39

abbrev pub if_none_match : ℕ
if_none_match = 40

abbrev pub if_range : ℕ
if_range = 41

abbrev pub if_unmodified_since : ℕ
if_unmodified_since = 42

abbrev pub last_modified : ℕ
last_modified = 43

abbrev pub link : ℕ
link = 44

abbrev pub location : ℕ
location = 45

abbrev pub max_forwards : ℕ
max_forwards = 46

abbrev pub proxy_authenticate : ℕ
proxy_authenticate = 47

abbrev pub proxy_authorization : ℕ
proxy_authorization = 48

abbrev pub range : ℕ
range = 49

abbrev pub referer : ℕ
referer = 50

abbrev pub refresh : ℕ
refresh = 51

abbrev pub retry_after : ℕ
retry_after = 52

abbrev pub server : ℕ
server = 53

abbrev pub set_cookie : ℕ
set_cookie = 54

abbrev pub strict_transport_security : ℕ
strict_transport_security = 55

abbrev pub transfer_encoding : ℕ
transfer_encoding = 56

abbrev pub user_agent : ℕ
user_agent = 57

abbrev pub vary : ℕ
vary = 58

abbrev pub via : ℕ
via = 59

abbrev pub www_authenticate : ℕ
www_authenticate = 60

abbrev pub te : ℕ
te = 61

abbrev pub connection : ℕ
connection = 62

abbrev pub keep_alive : ℕ
keep_alive = 63

abbrev pub proxy_connection : ℕ
proxy_connection = 64

abbrev pub upgrade : ℕ
upgrade = 65
