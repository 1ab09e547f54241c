-- ===== src/Api/Uploads/Links.antt =====
-- backend/internal/api/document_handler.go: the upload from a link. The parser of URLs and addresses, the
-- resolver of names and the download are parameters.
use tax_ocr.Prelude.{
  ℕ, ◌^◌, ◌*◌, ◌+◌, ◌-◌, ◌/◌, ◌==◌, leb, Bool, false, not, ◌||◌, ◌&&◌, if◌then◌else◌, String, Text,
  ◌=ₜ◌, runes, is_empty, Option, none, some, List, [], ◌∷◌, ◌++◌, length,
}
use tax_ocr.GoStrings.{has_prefix, is_digit}
use tax_ocr.GoStrings.Case.{UnicodeCase}
use tax_ocr.Db.Types.{DocumentImport}
use tax_ocr.Db.Monad.{Result, ok, err, Db, try, ◌>>=◌}
use tax_ocr.Db.ImportStore.{create_document_import}
use tax_ocr.Db.InvoiceStore.{create_invoice}
use tax_ocr.Api.ReviewerHandlers.{Response}
use tax_ocr.Api.Auth.{replied}
use tax_ocr.Api.Uploads.{
  UploadForm, Uploaded, Services, Accepted, new_upload, upload_queued, lacks_fields,
  extract_filename_from_url,
}

-- net.IP, an address of 4 bytes as such also where it is written in 16
pub data Ip : Type 0 where
  v4 v6 : ℕ → Ip

-- net.IPNet: the first address and the number of bits that are fixed
pub record IpNet : Type 0 where
  pub address : Ip
  pub ones : ℕ

same_prefix : (bits ones : ℕ) → ℕ → ℕ → Bool
same_prefix bits ones x y = x / 2 ^ (bits - ones) == y / 2 ^ (bits - ones)

shares_prefix : (ones : ℕ) → Ip → Ip → Bool
unfolding same_prefix
shares_prefix ones (v4 x) (v4 y) = same_prefix 32 ones x y
shares_prefix ones (v6 x) (v6 y) = same_prefix 128 ones x y
shares_prefix ones (v4 x) (v6 y) = false
shares_prefix ones (v6 x) (v4 y) = false

-- IPNet.Contains
in_network : Ip → IpNet → Bool
in_network ip n = shares_prefix n.ones n.address ip

dotted : (a b c d : ℕ) → Ip
dotted a b c d = v4 (((a * 256 + b) * 256 + c) * 256 + d)

network : Ip → ℕ → IpNet
network address ones = record { address = address; ones = ones }

unfoldable pub private_ranges : List IpNet
unfolding network dotted
private_ranges =
    network (dotted 10 0 0 0) 8
    ∷ network (dotted 172 16 0 0) 12
    ∷ network (dotted 192 168 0 0) 16
    ∷ network (dotted 127 0 0 0) 8
    ∷ network (dotted 169 254 0 0) 16
    ∷ network (dotted 100 64 0 0) 10
    ∷ network (v6 1) 128
    ∷ network (v6 (252 * 2 ^ 120)) 7
    ∷ network (v6 (1018 * 2 ^ 118)) 10
    ∷ []

in_some_network : Ip → List IpNet → Bool
in_some_network ip [] = false
in_some_network ip (n ∷ ns) = let rest = in_some_network ip ns in in_network ip n || rest

is_private : Option Ip → Bool
is_private none = false
is_private (some ip) = in_some_network ip private_ranges

some_private : (Text → Option Ip) → List Text → Bool
some_private parse_ip [] = false
some_private parse_ip (a ∷ addrs) =
    let rest = some_private parse_ip addrs in is_private (parse_ip a) || rest

pub record Url : Type 0 where
  pub scheme : Text
  pub hostname : Text

-- The response to a download.
pub record Fetched : Type 0 where
  pub status : ℕ
  pub content_type : Text
  -- `none` if its body cannot be read; at most the first 20 MB of it
  pub content : Option Text

-- url.Parse, net.LookupHost, net.ParseIP, and safeHTTPClient, which follows at most five redirects and
-- none to a URL that `valid` refuses; it has `none` for an error
pub record Net : Type 0 where
  pub parse_url : Text → Option Url
  pub lookup_host : Text → Option (List Text)
  pub parse_ip : Text → Option Ip
  pub fetch : (valid : Text → Bool) → Text → Option Fetched

-- [a-zA-Z0-9_-]
is_id_rune : ℕ → Bool
is_id_rune c = (leb 97 c && leb c 122) || (leb 65 c && leb c 90) || is_digit c || c == 95 || c == 45

id_at : Text → Text
id_at [] = []
id_at (c ∷ s) = let rest = id_at s in if is_id_rune c then c ∷ rest else []

without_three : Text → Text
without_three (a ∷ b ∷ c ∷ s) = s
without_three s = []

-- What the group of `(?:/d/|id=)([a-zA-Z0-9_-]{25,})` matches first, empty if nothing.
unfoldable pub gdrive_id : Text → Text
unfolding is_id_rune id_at without_three
gdrive_id [] = []
gdrive_id (c ∷ s) =
    let rest = gdrive_id s in
    let id = id_at (without_three (c ∷ s)) in
    if (has_prefix (c ∷ s) (runes "/d/") || has_prefix (c ∷ s) (runes "id=")) && leb 25 (length id)
    then id
    else rest

unfoldable pub resolve_download_url : Text → Text
resolve_download_url raw_url =
    let id = gdrive_id raw_url in
    if is_empty id
    then raw_url
    else runes "https://drive.google.com/uc?export=download&confirm=t&id=" ++ id

until_semicolon : Text → Text
until_semicolon [] = []
until_semicolon (c ∷ s) = let rest = until_semicolon s in if c == 59 then [] else c ∷ rest

pub record LinkBody : Type 0 where
  pub tenant_id : String
  pub branch_id : String
  pub user_id : String
  pub url : Text

module _ (net : Net) where
  addresses_valid : Option (List Text) → Bool
  addresses_valid none = false
  addresses_valid (some addrs) = not (some_private net.parse_ip addrs)

  url_valid : Option Url → Bool
  url_valid none = false
  url_valid (some url) =
      (url.scheme =ₜ runes "http" || url.scheme =ₜ runes "https")
      && addresses_valid (net.lookup_host url.hostname)

  -- Whether validateURL returns no error.
  unfoldable pub validate_url : Text → Bool
  unfolding addresses_valid url_valid some_private is_private in_some_network in_network
      shares_prefix same_prefix
  validate_url raw_url = url_valid (net.parse_url raw_url)

  -- `string_of` is a text as a string.
  module _ (u : UnicodeCase) (clock : ℕ → ℕ × ℕ) (services : Services) (string_of : Text → String)
      (req : LinkBody) where
    form_of : UploadForm
    form_of = record {
      tenant_id = req.tenant_id;
      branch_id = req.branch_id;
      user_id = req.user_id;
      file = none;
    }

    link_recorded :
        Uploaded → (content_type : String) → Result DocumentImport → Db (Response Accepted)
    link_recorded uploaded content_type (err e) = replied 400
    link_recorded uploaded content_type (ok doc) = do
      inv ← try (create_invoice clock (new_upload u clock services form_of doc uploaded))
      upload_queued u clock services form_of doc uploaded content_type inv

    link_stored : Option Uploaded → (content_type : String) → Db (Response Accepted)
    link_stored none content_type = replied 500
    link_stored (some uploaded) content_type = do
      doc ← try (
          create_document_import req.tenant_id req.branch_id req.user_id "gdrive"
            (string_of req.url) 1)
      link_recorded uploaded content_type doc

    link_read : Text → Option Text → Db (Response Accepted)
    link_read header none = replied 500
    link_read header (some content) =
        let content_type =
          string_of (until_semicolon (if is_empty header then runes "image/jpeg" else header)) in
        link_stored
          (services.upload req.tenant_id (extract_filename_from_url req.url) content content_type)
          content_type

    link_fetched : Option Fetched → Db (Response Accepted)
    link_fetched none = replied 400
    link_fetched (some resp) =
        if not (resp.status == 200) then replied 400 else link_read resp.content_type resp.content

    -- Whether a URL is valid is looked at before the download and at every redirect.
    unfoldable pub upload_from_link : Db (Response Accepted)
    unfolding form_of link_recorded link_stored until_semicolon link_read link_fetched lacks_fields
        upload_queued new_upload
    upload_from_link =
        if lacks_fields u clock services form_of || is_empty req.url
        then replied 400
        else let download_url = resolve_download_url req.url in
          if not (validate_url download_url)
          then replied 400
          else link_fetched (net.fetch validate_url download_url)

  unfoldable pub handle_upload_from_link :
      UnicodeCase
      → (ℕ → ℕ × ℕ)
      → Services
      → (Text → String)
      → Option LinkBody
      → Db (Response Accepted)
  handle_upload_from_link u clock services string_of none = replied 400
  handle_upload_from_link u clock services string_of (some req) =
      upload_from_link u clock services string_of req
