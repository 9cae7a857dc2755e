-- ===== src/Routes/Reading.antt =====
-- The endpoints of src/apps/api/routes.py that only read. A query parameter out of its bounds is
-- refused by FastAPI with status 422, after the token was checked; an offset is not negative here.
use akesis.Common.{ℕ, String, not, Option, none, some, List, [], ◌∷◌, within, concat}
use akesis.Domain.{PipelineSummary}
use akesis.Config.{Settings, Python}
use akesis.Runtime.{M, ErrorKind, ◌>>=◌, ◌>>◌, pure, raise, raise_if}
use akesis.Services.{Json}
use akesis.Routes.Handlers.{verify_read_token}
use akesis.Database.Listing.{QueryOrder, list_recent_pipelines}
use akesis.Database.Incidents.{
  JsonReader, IncidentSummary, IncidentDetail, get_incident, list_incidents,
}

module _ (settings : Settings) (python : Python) (reader : JsonReader) (json : Json)
    (database : QueryOrder) where
  -- `Query(ge=1, le=100)`
  abbrev check_limit : ℕ → M (Unit {0})
  check_limit limit =
      raise_if (not (within 1 100 limit)) (ErrorKind.http 422) "limit must be between 1 and 100"

  unfoldable pub read_incidents : Option String → ℕ → ℕ → M (List IncidentSummary)
  read_incidents token limit offset = do
    verify_read_token settings python token
    check_limit limit
    list_incidents reader json database limit offset

  abbrev found_or_404 : String → Option IncidentDetail → M IncidentDetail
  found_or_404 incident_id none =
      raise (ErrorKind.http 404) (concat ("Incident '" ∷ incident_id ∷ "' not found" ∷ []))
  found_or_404 incident_id (some incident) = pure incident

  unfoldable pub read_incident : Option String → String → M IncidentDetail
  read_incident token incident_id = do
    verify_read_token settings python token
    incident ← get_incident reader json incident_id
    found_or_404 incident_id incident

  unfoldable pub read_pipelines : Option String → ℕ → ℕ → M (List PipelineSummary)
  read_pipelines token limit offset = do
    verify_read_token settings python token
    check_limit limit
    list_recent_pipelines database limit offset
