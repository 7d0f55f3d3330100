-- ===== src/Intel/Provider.antt =====
-- intel.go: knownProviders and detectProvider.
pub mod Matched
use efe_process_monitor.Common.{◌++◌, [], ◌∷◌, List, if◌then◌else◌}
use efe_process_monitor.Common.Texts.{Text, codes, to_lower, contains}

-- The fields of an Enrichment that detectProvider reads.
pub record NetworkTexts : Type 0 where
  pub isp : Text
  pub org : Text
  pub asn : Text
  pub dns : Text

abbrev pub known_providers : List (Text × Text)
known_providers =
    (codes "anthropic", codes "Anthropic")
    ∷ (codes "openai", codes "OpenAI")
    ∷ (codes "google", codes "Google")
    ∷ (codes "microsoft", codes "Microsoft")
    ∷ (codes "azure", codes "Microsoft")
    ∷ (codes "amazon", codes "Amazon")
    ∷ (codes "aws", codes "Amazon")
    ∷ (codes "cloudfront", codes "Amazon")
    ∷ (codes "cloudflare", codes "Cloudflare")
    ∷ (codes "akamai", codes "Akamai")
    ∷ (codes "fastly", codes "Fastly")
    ∷ (codes "apple", codes "Apple")
    ∷ (codes "meta", codes "Meta")
    ∷ (codes "facebook", codes "Meta")
    ∷ (codes "github", codes "GitHub")
    ∷ (codes "mozilla", codes "Mozilla")
    ∷ []

abbrev pub haystack : NetworkTexts → Text
haystack e =
    to_lower (e.isp ++ (codes " " ++ (e.org ++ (codes " " ++ (e.asn ++ (codes " " ++ e.dns))))))

pub first_match : Text → List (Text × Text) → Text
first_match hay [] = []
first_match hay ((k, name) ∷ ps) =
    let later = first_match hay ps in if contains hay k then name else later

-- The map in the order in which Go visits it, which differs from call to call.
pub detect_provider : List (Text × Text) → NetworkTexts → Text
detect_provider order e = first_match (haystack e) order
