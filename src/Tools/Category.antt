-- ===== src/Tools/Category.antt =====
-- The classification of file system errors in tool_list_directory.go.
use fileserver_mcp.Base.{
  ◌++◌, Text, codes, absolute_path, path_traversal, outside_root, hidden_path_denied,
  unc_path_denied, symlink_denied, reparse_point_denied, file_too_large, path_is_directory,
  path_is_not_directory, file_exists, directory_not_empty, copy_directory_unsupported,
  limit_exceeded, not_found, same_path, move_into_self, cross_volume_move_unsupported,
  move_type_mismatch, move_path_changed, not_exist, exist, permission, Error, guard, fs, os,
}
use fileserver_mcp.Protocol.{ErrorCode, invalid_params, internal_error, RpcError}

pub data Category : Type 0 where
  not_found_category already_exists access_denied invalid_path unsupported_path_type
        unsupported_operation limit_category io_error :
      Category

unfoldable pub classify_filesystem_error : Error → Category
classify_filesystem_error (guard absolute_path) = invalid_path
classify_filesystem_error (guard path_traversal) = invalid_path
classify_filesystem_error (guard outside_root) = invalid_path
classify_filesystem_error (guard hidden_path_denied) = invalid_path
classify_filesystem_error (guard unc_path_denied) = invalid_path
classify_filesystem_error (guard symlink_denied) = invalid_path
classify_filesystem_error (guard reparse_point_denied) = invalid_path
classify_filesystem_error (fs same_path) = invalid_path
classify_filesystem_error (fs move_into_self) = invalid_path
classify_filesystem_error (fs move_path_changed) = invalid_path
classify_filesystem_error (fs not_found) = not_found_category
classify_filesystem_error (os not_exist) = not_found_category
classify_filesystem_error (fs file_exists) = already_exists
classify_filesystem_error (os exist) = already_exists
classify_filesystem_error (os permission) = access_denied
classify_filesystem_error (fs path_is_directory) = unsupported_path_type
classify_filesystem_error (fs path_is_not_directory) = unsupported_path_type
classify_filesystem_error (fs copy_directory_unsupported) = unsupported_path_type
classify_filesystem_error (fs move_type_mismatch) = unsupported_path_type
classify_filesystem_error (fs directory_not_empty) = unsupported_path_type
classify_filesystem_error (fs cross_volume_move_unsupported) = unsupported_operation
classify_filesystem_error (fs file_too_large) = limit_category
classify_filesystem_error (fs limit_exceeded) = limit_category
classify_filesystem_error _ = io_error

-- The category's name with spaces for underscores.
unfoldable pub category_words : Category → Text
category_words not_found_category = codes "not found"
category_words already_exists = codes "already exists"
category_words access_denied = codes "access denied"
category_words invalid_path = codes "invalid path"
category_words unsupported_path_type = codes "unsupported path type"
category_words unsupported_operation = codes "unsupported operation"
category_words limit_category = codes "limit exceeded"
category_words io_error = codes "io error"

unfoldable pub category_code : Category → ErrorCode
category_code io_error = internal_error
category_code _ = invalid_params

unfoldable pub map_filesystem_error : Error → RpcError
map_filesystem_error e =
    let category = classify_filesystem_error e in
    record {
      code = category_code category;
      message = codes "filesystem error: " ++ category_words category;
    }
