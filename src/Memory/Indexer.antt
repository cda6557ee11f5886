-- ===== src/Memory/Indexer.antt =====
-- memory/indexer.py: every text is masked before it is embedded and stored.
use ai_oncall.Prelude.{String, ◌<>◌, Option, none, some, [], ◌∷◌, ◌++◌}
use ai_oncall.Python.Exec.{Exec, ok, ◌>>=◌}
use ai_oncall.Python.Host.{Host}
use ai_oncall.Store.Schema.{KnowledgeChunk, Store, time, uuid_hex}
use ai_oncall.Memory.Redact.{Patterns, redact_text}

-- The protocol EmbeddingProvider; `embed` gives the vector as the JSON text that is stored.
pub record EmbeddingProvider : Type 0 where
  pub name : String
  pub embed : String → String

-- service, cluster and severity
pub record Metadata : Type 0 where
  pub service : Option String
  pub cluster : Option String
  pub severity : Option String

abbrev pub no_metadata : Metadata
no_metadata = record { service = none; cluster = none; severity = none }

module _ ⦃h : Host⦄ where
  -- store.py: INSERT INTO knowledge_chunks
  unfoldable pub insert_knowledge_chunk :
      String → String → String → String → Metadata → Option String → Exec Store KnowledgeChunk
  insert_knowledge_chunk source text embedding embedding_provider meta ref_id = do
    digits ← uuid_hex 12
    now ← time
    let chunk : KnowledgeChunk = record {
      id = "kc-" <> digits;
      source = source;
      ref_id = ref_id;
      text = text;
      embedding = embedding;
      embedding_provider = embedding_provider;
      service = meta.service;
      cluster = meta.cluster;
      severity = meta.severity;
      created_at = now;
    }
    λ s. (ok chunk, record s { knowledge_chunks = s.knowledge_chunks ++ chunk ∷ [] })

  module _ ⦃p : Patterns⦄ (provider : EmbeddingProvider) where
    unfoldable pub index : String → String → Metadata → Option String → Exec Store KnowledgeChunk
    unfolding insert_knowledge_chunk
    index source text meta ref_id =
        let safe_text = redact_text text in
        insert_knowledge_chunk source safe_text (provider.embed safe_text) provider.name meta ref_id

    unfoldable pub index_postmortem : String → String → Metadata → Exec Store KnowledgeChunk
    unfolding index
    index_postmortem incident_id conclusion meta =
        index "postmortem" conclusion meta (some incident_id)

    unfoldable pub index_override : String → String → Metadata → Exec Store KnowledgeChunk
    unfolding index
    index_override incident_id actual_action meta =
        index "override" ("override: " <> actual_action) meta (some incident_id)

    unfoldable pub index_runbook : String → String → Exec Store KnowledgeChunk
    unfolding index
    index_runbook name content = index "runbook" content no_metadata (some name)
