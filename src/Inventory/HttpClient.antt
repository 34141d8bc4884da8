-- ===== src/Inventory/HttpClient.antt =====
-- internal/inventory/httpclient.go: the inventory of clusters over HTTP. Packages net/http, net/url and
-- the decoder of JSON are the fields of `Http`.
use k8s_ts_mcp.Common.{
  trim_right_of, ℕ, String, append_text, Option, none, some, if◌then◌else◌, eqb, errorf, end, str,
  cause, Error, Result, ok, err, Call, ◌>>=◌, pure, raise, wrap_err,
}
use k8s_ts_mcp.Inventory.{ClusterInfo}

-- `httpClusterInfo`.
pub record HttpClusterInfo : Type 0 where
  pub aws_account_id : String
  pub region : String
  pub eks_cluster_name : String

-- A response: the code, the text of the status, and what decoding its body gives.
pub record HttpResponse : Type 0 where
  pub status_code : ℕ
  pub status : String
  pub body : Result HttpClusterInfo

-- `new_request` is the error of making a request; `get` sends it, with the header that asks for JSON.
pub record Http (W : Type 0) : Type 0 where
  pub path_escape : String → String
  pub new_request : String → Option Error
  pub get : String → Call W HttpResponse

abbrev status_ok : ℕ
status_ok = 200

abbrev status_not_found : ℕ
status_not_found = 404

module _ {W : Type 0} (http : Http W) (base_url : String) where
  abbrev url_of : String → String
  url_of id =
      append_text (trim_right_of "/" base_url) (append_text "/clusters/" (http.path_escape id))

  abbrev made : String → Option Error → Call W (Unit {0})
  made id none = pure tt
  made id (some e) =
      raise (errorf "building inventory API request for %s: %w" (str id (cause e end)))

  abbrev info_of : String → Result HttpClusterInfo → Call W (Option ClusterInfo)
  info_of id (err e) =
      raise (errorf "decoding inventory API response for %s: %w" (str id (cause e end)))
  info_of id (ok body) = pure (
      some (record {
        cluster_id = id;
        aws_account_id = body.aws_account_id;
        region = body.region;
        eks_cluster_name = body.eks_cluster_name;
      }))

  abbrev answer_of : String → HttpResponse → Call W (Option ClusterInfo)
  answer_of id resp =
      if eqb resp.status_code status_not_found
      then pure none
      else if eqb resp.status_code status_ok
      then info_of id resp.body
      else raise (errorf "inventory API returned %s for cluster %s" (str resp.status (str id end)))

  -- `Lookup`; an unknown cluster is `none`.
  unfoldable pub lookup_over_http : String → Call W (Option ClusterInfo)
  lookup_over_http id = do
    _ ← made id (http.new_request (url_of id))
    resp ←
        wrap_err (λ e. errorf "calling inventory API for %s: %w" (str id (cause e end)))
          (http.get (url_of id))
    answer_of id resp
