-- ===== src/Net/Samples.antt =====
-- For the tests: an agent that hands each request to the relay.
use pigeonhole_clarity_messe.Prelude.{ℕ, refl, [], ◌∷◌, ◌++◌, drop}
use pigeonhole_clarity_messe.Prelude.Bytes.{Bytes, ascii}
use pigeonhole_clarity_messe.Prelude.Result.{Result}
use pigeonhole_clarity_messe.Relay.Query.Form.{write_all}
use pigeonhole_clarity_messe.Relay.Store.Persistence.{RelayStore}
use pigeonhole_clarity_messe.Relay.Server.{Response, method_get, method_post, handle}
use pigeonhole_clarity_messe.Relay.Samples.{
  formats, form, base64-IsBase64, json_round_trip, json_utf8, publish_request, bundle_response,
  send_request, poll_response, bundle,
}
use pigeonhole_clarity_messe.Core.Codec.{bincode-IsBincode}
use pigeonhole_clarity_messe.Net.{
  RelayTransport, ClientRequest, get_query, post_json, UreqError, transport, status, url,
  trim_end_slashes,
}
use pigeonhole_clarity_messe.Net.Wire.{IsFormats, Reaches, as_client}

pub formats-IsFormats : IsFormats formats
unfolding formats
formats-IsFormats = record {
  base64 = base64-IsBase64;
  publish_json = record {
    from_str-to_string = json_round_trip publish_request;
    utf8 = json_utf8 publish_request;
  };
  bundle_json = record {
    from_str-to_string = json_round_trip bundle_response;
    utf8 = json_utf8 bundle_response;
  };
  send_json = record {
    from_str-to_string = json_round_trip send_request;
    utf8 = json_utf8 send_request;
  };
  poll_json = record {
    from_str-to_string = json_round_trip poll_response;
    utf8 = json_utf8 poll_response;
  };
  bundle_format = bincode-IsBincode bundle;
}

abbrev pub base : Bytes
base = ascii "http://r"

-- The path is what follows the base URL.
abbrev pub wired : ℕ → RelayStore → ClientRequest → RelayStore × Result UreqError Response
unfolding handle as_client
wired now st (get_query u name value) = as_client (
    handle formats st now (record {
      method = method_get;
      url = drop 8 u ++ 63 ∷ (name ++ 61 ∷ write_all form value);
      body = [];
    }))
wired now st (post_json u body) =
    as_client (handle formats st now (record { method = method_post; url = drop 8 u; body = body }))

abbrev pub client : ℕ → RelayTransport RelayStore
unfolding wired
client now = record { base_url = base; agent = wired now }

pub client-Reaches : (now : ℕ) → Reaches formats now form (client now)
unfolding client wired url trim_end_slashes
client-Reaches now = record { get = λ st path name value. refl; post = λ st path body. refl }

abbrev pub display : UreqError → Bytes
display (transport m) = m
display (status code r) = r.body
