-- ===== src/Protocol/Names.antt =====
-- The names of the fields, the paths of the requests and the texts of the protocol, as lists of codes.
use project_trans.Base.{ℕ, List, [], ◌∷◌}

-- "version"
abbrev pub version_name : List ℕ
version_name = 118 ∷ 101 ∷ 114 ∷ 115 ∷ 105 ∷ 111 ∷ 110 ∷ []

-- "request_id"
abbrev pub request_id_name : List ℕ
request_id_name = 114 ∷ 101 ∷ 113 ∷ 117 ∷ 101 ∷ 115 ∷ 116 ∷ 95 ∷ 105 ∷ 100 ∷ []

-- "request_type"
abbrev pub request_type_name : List ℕ
request_type_name = 114 ∷ 101 ∷ 113 ∷ 117 ∷ 101 ∷ 115 ∷ 116 ∷ 95 ∷ 116 ∷ 121 ∷ 112 ∷ 101 ∷ []

-- "path"
abbrev pub path_name : List ℕ
path_name = 112 ∷ 97 ∷ 116 ∷ 104 ∷ []

-- "content_type"
abbrev pub content_type_name : List ℕ
content_type_name = 99 ∷ 111 ∷ 110 ∷ 116 ∷ 101 ∷ 110 ∷ 116 ∷ 95 ∷ 116 ∷ 121 ∷ 112 ∷ 101 ∷ []

-- "body"
abbrev pub body_name : List ℕ
body_name = 98 ∷ 111 ∷ 100 ∷ 121 ∷ []

-- "status"
abbrev pub status_name : List ℕ
status_name = 115 ∷ 116 ∷ 97 ∷ 116 ∷ 117 ∷ 115 ∷ []

-- "message"
abbrev pub message_name : List ℕ
message_name = 109 ∷ 101 ∷ 115 ∷ 115 ∷ 97 ∷ 103 ∷ 101 ∷ []

-- "file_id"
abbrev pub file_id_name : List ℕ
file_id_name = 102 ∷ 105 ∷ 108 ∷ 101 ∷ 95 ∷ 105 ∷ 100 ∷ []

-- "task_id"
abbrev pub task_id_name : List ℕ
task_id_name = 116 ∷ 97 ∷ 115 ∷ 107 ∷ 95 ∷ 105 ∷ 100 ∷ []

-- "block_id"
abbrev pub block_id_name : List ℕ
block_id_name = 98 ∷ 108 ∷ 111 ∷ 99 ∷ 107 ∷ 95 ∷ 105 ∷ 100 ∷ []

-- "offset"
abbrev pub offset_name : List ℕ
offset_name = 111 ∷ 102 ∷ 102 ∷ 115 ∷ 101 ∷ 116 ∷ []

-- "block_size"
abbrev pub block_size_name : List ℕ
block_size_name = 98 ∷ 108 ∷ 111 ∷ 99 ∷ 107 ∷ 95 ∷ 115 ∷ 105 ∷ 122 ∷ 101 ∷ []

-- "data"
abbrev pub data_name : List ℕ
data_name = 100 ∷ 97 ∷ 116 ∷ 97 ∷ []

-- "file_name"
abbrev pub file_name_name : List ℕ
file_name_name = 102 ∷ 105 ∷ 108 ∷ 101 ∷ 95 ∷ 110 ∷ 97 ∷ 109 ∷ 101 ∷ []

-- "file_size"
abbrev pub file_size_name : List ℕ
file_size_name = 102 ∷ 105 ∷ 108 ∷ 101 ∷ 95 ∷ 115 ∷ 105 ∷ 122 ∷ 101 ∷ []

-- "md5_code"
abbrev pub md5_code_name : List ℕ
md5_code_name = 109 ∷ 100 ∷ 53 ∷ 95 ∷ 99 ∷ 111 ∷ 100 ∷ 101 ∷ []

-- "/download"
abbrev pub download_path : List ℕ
download_path = 47 ∷ 100 ∷ 111 ∷ 119 ∷ 110 ∷ 108 ∷ 111 ∷ 97 ∷ 100 ∷ []

-- "/test"
abbrev pub test_path : List ℕ
test_path = 47 ∷ 116 ∷ 101 ∷ 115 ∷ 116 ∷ []

-- "/block"
abbrev pub block_path : List ℕ
block_path = 47 ∷ 98 ∷ 108 ∷ 111 ∷ 99 ∷ 107 ∷ []

-- "Echo: "
abbrev pub echo : List ℕ
echo = 69 ∷ 99 ∷ 104 ∷ 111 ∷ 58 ∷ 32 ∷ []
