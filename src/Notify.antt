-- ===== src/Notify.antt =====
-- internal/notify/webhook.go: the payloads that are sent. A nil notifier is `none`.
use datasaver.Base.{
  ℕ, ◌/◌, Str, bytes, List, [], ◌∷◌, ◌++◌, Option, none, some, if◌then◌else◌, leb, Result, ok, err,
}
use datasaver.Base.Int.{ℤ, pos, negsuc, neg_part, neg_ℕ}
use datasaver.Clock.{Time}

pub record Details : Type 0 where
  pub size : ℤ
  pub duration : ℤ
  pub error : Str

abbrev pub no_details : Details
no_details = record { size = pos 0; duration = pos 0; error = [] }

pub record WebhookPayload : Type 0 where
  pub event : Str
  pub timestamp : Time
  pub backup_id : Str
  pub status : Str
  pub message : Str
  pub details : Details

-- The part of a Notifier that decides what is sent.
pub record Notifier : Type 0 where
  pub webhook_url : Str

unfoldable pub new_notifier : Str → Option Notifier
new_notifier [] = none
new_notifier (c ∷ s) = some (record { webhook_url = c ∷ s })

-- Duration.Milliseconds rounds towards zero.
unfoldable pub milliseconds : ℤ → ℤ
milliseconds (pos n) = pos (n / 1000000)
milliseconds (negsuc n) = neg_ℕ (neg_part (negsuc n) / 1000000)

-- Each call gives the payloads that it posts: one, or none from a nil notifier.
unfoldable pub notify_success : Option Notifier → Time → Str → ℤ → ℤ → List WebhookPayload
notify_success none now id size duration = []
notify_success (some n) now id size duration =
    record {
      event = bytes "backup.completed";
      timestamp = now;
      backup_id = id;
      status = bytes "success";
      message = bytes "Backup " ++ (id ++ bytes " completed successfully");
      details = record { size = size; duration = milliseconds duration; error = [] };
    }
    ∷ []

unfoldable pub notify_failure : Option Notifier → Time → Str → Str → List WebhookPayload
notify_failure none now id error = []
notify_failure (some n) now id error =
    record {
      event = bytes "backup.failed";
      timestamp = now;
      backup_id = id;
      status = bytes "failure";
      message = bytes "Backup " ++ (id ++ bytes " failed");
      details = record { size = pos 0; duration = pos 0; error = error };
    }
    ∷ []

unfoldable pub notify_alert : Option Notifier → Time → Str → List WebhookPayload
notify_alert none now message = []
notify_alert (some n) now message =
    record {
      event = bytes "backup.alert";
      timestamp = now;
      backup_id = [];
      status = bytes "alert";
      message = message;
      details = no_details;
    }
    ∷ []

-- A POST request.
pub record Request : Type 0 where
  pub url : Str
  pub headers : List (Str × Str)
  pub body : Str

-- encoding/json for a payload, and net/http: whether a request for this URL can be made, and the
-- status that the server answers.
pub record Http : Type 0 where
  pub marshal : WebhookPayload → Result Str Str
  pub new_request : Str → Result Str (Unit {0})
  pub do_request : Request → Result Str ℕ

-- What send logs.
pub data Delivery : Type 0 where
  not_marshalled : Str → Delivery
  not_made : Str → Delivery
  not_sent : Str → Delivery
  error_status : ℕ → Delivery
  delivered : Delivery

-- The requests that are made, and how that ends.
unfoldable pub send : Http → Notifier → WebhookPayload → List Request × Delivery
send h n payload = elim (h.marshal payload) [
  | err e ↦ ([], not_marshalled e)
  | ok json ↦ elim (h.new_request n.webhook_url) [
    | err e ↦ ([], not_made e)
    | ok u ↦
        let r : Request = record {
          url = n.webhook_url;
          headers =
              (bytes "Content-Type", bytes "application/json")
              ∷ (bytes "User-Agent", bytes "datasaver/1.0")
              ∷ [];
          body = json;
        } in
        (
          r ∷ [],
          elim (h.do_request r) [
            | err e ↦ not_sent e
            | ok status ↦ if leb 400 status then error_status status else delivered
          ],
        )
  ]
]
