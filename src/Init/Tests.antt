-- ===== src/Init/Tests.antt =====
-- The theorems about requests, queries and reports applied to a server that is busy at first.
use azure_init.Prelude.{
  ℕ, zero, suc, ◌≡◌, refl, true, Bool, Option, none, some, [], arith, ltb, Bytes, codes,
}
use azure_init.Result.{ok}
use azure_init.Init.Http.{Response, responded, unanswered, Attempt, Expires, success, request}
use azure_init.Init.Http.Settles.{SettledBy, request_settles}
use azure_init.Init.Imds.{InstanceMetadata, query, done}
use azure_init.Init.Imds.Query.{Answered, query_ends}
use azure_init.Init.Health.{ready, Wireserver, send_report}
use azure_init.Init.Health.Once.{by_one_request, send_report_once}

abbrev pub metadata : InstanceMetadata
metadata = record {
  compute = record {
    os_profile = record {
      admin_username = codes "user";
      computer_name = codes "host";
      disable_password_authentication = true;
    };
    public_keys = [];
  };
}

abbrev pub answer : ℕ → Response
answer s = record { status = s; body = some (codes "text") }

-- No answer, then 503, then 200; each attempt takes 2.
abbrev pub busy : ℕ → Attempt
busy zero = record { took = 2; reply = unanswered }
busy (suc zero) = record { took = 2; reply = responded (answer 503) }
busy (suc (suc n)) = record { took = 2; reply = responded (answer 200) }

abbrev pub strictly : ℕ → ℕ → Bool
strictly elapsed limit = ltb limit elapsed

strictly-Expires : Expires strictly
strictly-Expires = record { early = λ e l h. ground arith; late = λ e l h. ground arith }

answers_twice : request busy strictly 1 20 0 ≡ success (answer 200) 11 3
unfolding request
answers_twice = refl

request_settles_example : SettledBy busy strictly 1 20 0 0 (request busy strictly 1 20 0)
request_settles_example = request_settles busy strictly 1 20 strictly-Expires (omega arith) 0

abbrev pub parse : Bytes → Option InstanceMetadata
parse t = some metadata

finds_metadata : query busy strictly 1 parse 20 0 ≡ done (ok metadata)
unfolding query request
finds_metadata = refl

query_ends_example : Answered busy strictly 1 parse 0 (query busy strictly 1 parse 20 0)
query_ends_example = query_ends busy strictly 1 parse strictly-Expires (omega arith) 20 0

abbrev pub wireserver : Wireserver
wireserver = record {
  server = λ body. busy;
  expired = strictly;
  connection_timeout = 1;
  total_retry_timeout = 20;
  health_endpoint = codes "http://168.63.129.16/provisioning/health";
}

report_accepted : send_report wireserver ready none none 0 ≡ done (ok tt)
unfolding send_report request
report_accepted = refl

send_report_once_example :
    send_report wireserver ready none none 0
    ≡ by_one_request wireserver (request busy strictly 1 20 0)
send_report_once_example =
    send_report_once wireserver ready none none 0 strictly-Expires (omega arith) (omega arith)
