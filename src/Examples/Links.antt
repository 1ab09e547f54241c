-- ===== src/Examples/Links.antt =====
-- Links that an upload takes, and addresses that it does not fetch from.
use tax_ocr.Prelude.{◌≡◌, refl, true, false, ◌=ₜ◌, runes, is_empty, some, none, [], ◌∷◌}
use tax_ocr.GoStrings.{has_prefix, is_digit}
use tax_ocr.Api.Uploads.Links.{
  v4, v6, Ip, Net, gdrive_id, resolve_download_url, validate_url, private_ranges,
}

-- Every name stands for one address.
abbrev net_at : Ip → Net
net_at ip = record {
  parse_url = λ url. some (record { scheme = runes "https"; hostname = url });
  lookup_host = λ name. some (name ∷ []);
  parse_ip = λ address. some ip;
  fetch = λ valid url. none;
}

-- 172.31.0.1
private_refused : validate_url (net_at (v4 2887712769)) (runes "intra.example.com") ≡ false
unfolding validate_url private_ranges ◌=ₜ◌
private_refused = refl

-- 172.32.0.1
public_valid : validate_url (net_at (v4 2887778305)) (runes "www.example.com") ≡ true
unfolding validate_url private_ranges ◌=ₜ◌
public_valid = refl

loopback_refused : validate_url (net_at (v6 1)) (runes "localhost") ≡ false
unfolding validate_url private_ranges ◌=ₜ◌
loopback_refused = refl

shared_file :
    resolve_download_url (runes "https://drive.google.com/file/d/0123456789-abcdefghij_KLMN/view")
    ≡ runes "https://drive.google.com/uc?export=download&confirm=t&id=0123456789-abcdefghij_KLMN"
unfolding resolve_download_url gdrive_id is_empty has_prefix is_digit
shared_file = refl

plain_link :
    resolve_download_url (runes "https://example.com/a.jpg") ≡ runes "https://example.com/a.jpg"
unfolding resolve_download_url gdrive_id is_empty has_prefix
plain_link = refl

-- 0.0.0.0 is in no range of the list.
unspecified_valid : validate_url (net_at (v4 0)) (runes "zero.example.com") ≡ true
unfolding validate_url private_ranges ◌=ₜ◌
unspecified_valid = refl
