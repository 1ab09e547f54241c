-- ===== src/Examples/Http.antt =====
-- Requests: the limiter of the login, and the audit log.
use tax_ocr.Prelude.{
  min, max, ◌≡◌, refl, true, false, Text, runes, none, List, [], ◌∷◌, ◌++◌, ◌=ₜ◌, arith,
}
use tax_ocr.GoStrings.Case.{ascii}
use tax_ocr.GoStrings.Split.{byte_length}
use tax_ocr.Api.RateLimiter.{Entries, Event, call, clean, drop_expired, answers, allowed}
use tax_ocr.Api.RateLimiter.Laws.{calls, calls_only, allowed_lem, answers-calls_only}
use tax_ocr.Api.Audit.{
  Request, Claims, looks_like_id, is_one_of, special_actions, method_action,
  resource_to_entity_type, parse_audit_info,
}
use tax_ocr.Api.Audit.Laws.{parse_audit_info_path}

abbrev no_entries : Entries
no_entries k = none

abbrev calls_of_one_minute : List Event
calls_of_one_minute = call 12 "b" ∷ call 20 "a" ∷ clean 30 ∷ call 40 "a" ∷ call 60 "a" ∷ []

abbrev all_events : List Event
all_events = call 10 "a" ∷ calls_of_one_minute

gone : drop_expired 10 (no_entries "a") ≡ none
unfolding drop_expired
gone = refl

allowed_lem_example : allowed 2 60 "a" all_events no_entries ≡ max 1 (min (calls "a" all_events) 2)
allowed_lem_example =
    allowed_lem 2 60 "a" 10 calls_of_one_minute no_entries gone
      (omega arith, (omega arith, (omega arith, (omega arith, (omega arith, tt)))))

answers-calls_only_example :
    answers 2 60 all_events no_entries ≡ answers 2 60 (calls_only all_events) no_entries
answers-calls_only_example =
    answers-calls_only 2 60 0 all_events no_entries
      (omega arith, (omega arith, (omega arith, (omega arith, (omega arith, (omega arith, tt))))))

abbrev request : Request
request = record {
  method = runes "POST";
  path = runes "/api/v1/hitl";
  forwarded_for = [];
  real_ip = [];
  remote_addr = runes "10.0.0.1:5000";
  user_agent = runes "curl";
}

abbrev claims : Claims
claims = record { tenant_id = "t"; user_id = "u" }

abbrev hitl_id : Text
hitl_id = runes "3f2b8c1e-0a4d-4c6e-9b7a-1d2e3f4a5b6c"

hitl_id_looks : looks_like_id hitl_id ≡ true
unfolding looks_like_id byte_length
hitl_id_looks = refl

hitl_id_plain : is_one_of special_actions hitl_id ≡ false
unfolding is_one_of ◌=ₜ◌
hitl_id_plain = refl

resolve_special : is_one_of special_actions (runes "resolve") ≡ true
unfolding is_one_of ◌=ₜ◌
resolve_special = refl

parse_audit_info_path_example :
    (parse_audit_info ascii (runes "POST") (runes "/api/v1/" ++ runes "hitl" ++ (47 ∷ hitl_id))
      ≡ record {
        action = method_action ascii (runes "POST");
        entity_type = resource_to_entity_type (runes "hitl");
        entity_id = hitl_id;
      })
    × (parse_audit_info ascii
          (runes "POST")
          (runes "/api/v1/" ++ runes "hitl" ++ (47 ∷ (hitl_id ++ (47 ∷ runes "resolve"))))
        ≡ record {
          action = runes "resolve";
          entity_type = resource_to_entity_type (runes "hitl");
          entity_id = hitl_id;
        })
parse_audit_info_path_example =
    parse_audit_info_path ascii (runes "POST") 104 (runes "itl") hitl_id (runes "resolve")
      (refl, (refl, (refl, (refl, tt))))
      (
        refl,
        (
          refl,
          (
            refl,
            (
              refl,
              (
                refl,
                (
                  refl,
                  (
                    refl,
                    (
                      refl,
                      (
                        refl,
                        (
                          refl,
                          (
                            refl,
                            (
                              refl,
                              (
                                refl,
                                (
                                  refl,
                                  (
                                    refl,
                                    (
                                      refl,
                                      (
                                        refl,
                                        (
                                          refl,
                                          (
                                            refl,
                                            (
                                              refl,
                                              (
                                                refl,
                                                (
                                                  refl,
                                                  (
                                                    refl,
                                                    (
                                                      refl,
                                                      (
                                                        refl,
                                                        (
                                                          refl,
                                                          (
                                                            refl,
                                                            (
                                                            refl,
                                                            (
                                                            refl,
                                                            (
                                                            refl,
                                                            (
                                                            refl,
                                                            (
                                                            refl,
                                                            (refl, (refl, (refl, (refl, tt)))),
                                                            ),
                                                            ),
                                                            ),
                                                            ),
                                                            ),
                                                          ),
                                                        ),
                                                      ),
                                                    ),
                                                  ),
                                                ),
                                              ),
                                            ),
                                          ),
                                        ),
                                      ),
                                    ),
                                  ),
                                ),
                              ),
                            ),
                          ),
                        ),
                      ),
                    ),
                  ),
                ),
              ),
            ),
          ),
        ),
      )
      (refl, (refl, (refl, (refl, (refl, (refl, (refl, tt))))))) hitl_id_looks hitl_id_plain
      resolve_special
